-- ===== src/Examples/Pods.antt =====
-- The theorem on admitted pods, at a pod with one tailed container.
use logging_operator.Base.{codes, ◌==◌, ◌≡◌, refl, none, [], ◌∷◌, inl}
use logging_operator.Base.Assoc.{lookup}
use logging_operator.PodHandler.{Container}
use logging_operator.PodHandler.Handle.{Pod, patched, handle, additions_for}
use logging_operator.PodHandler.Handled.{IsHandled, handle-IsHandled}

abbrev container : Container
container = record { name = codes "db"; image = codes "db:1"; command = []; volume_mounts = [] }

abbrev pod : Pod
pod = record {
  annotations = (codes "tail", codes "/var/log/db") ∷ [];
  containers = container ∷ [];
  volumes = [];
}

handle-IsHandled_example :
    (result : Pod) × (handle
        (λ c. c)
        (codes "fluent-bit")
        (λ p. [])
        (λ p. none)
        (codes "tail")
        (inl pod)
      ≡ patched result)
    × IsHandled
        (additions_for (λ c. c) (codes "fluent-bit") (λ p. []) pod (codes "/var/log/db"))
        pod
        result
unfolding codes ◌==◌ lookup
handle-IsHandled_example =
    handle-IsHandled (λ c. c) (codes "fluent-bit") (λ p. []) (λ p. none) (codes "tail")
      (codes "/var/log/db") pod refl (λ p. refl)
