-- ===== src/Output/Kinds.antt =====
-- The outputs that are buffered, by kind, and the buffer that each is configured with.
use logging_operator.Base.{Text, codes, Option, List, ◌++◌, ◌⊎◌}
use logging_operator.Directive.{Directive}
use logging_operator.StringsMap.{Json, FieldFault, SecretLoader}
use logging_operator.Output.Buffer.{Buffer}
use logging_operator.Output.File.{FileOutputConfig, file_to_directive}
use logging_operator.Output.Syslog.{SyslogOutputConfig, syslog_to_directive}
use logging_operator.Output.Redis.{RedisOutputConfig, redis_to_directive}
use logging_operator.Output.Kafka.{KafkaOutputConfig, kafka_to_directive}
use logging_operator.Output.Datadog.{DatadogOutput, datadog_to_directive}
use logging_operator.Output.Logdna.{LogDnaOutput, logdna_to_directive}
use logging_operator.Output.Oss.{OssOutput, oss_to_directive}
use logging_operator.Output.Gcs.{GcsOutput, gcs_to_directive}
use logging_operator.Output.Azurestore.{AzureStorage, azure_to_directive}
use logging_operator.Output.Sqs.{SqsOutputConfig, sqs_to_directive}
use logging_operator.Output.Http.{HttpOutputConfig, http_to_directive}
use logging_operator.Output.Cloudwatch.{CloudWatchOutput, cloudwatch_to_directive}
use logging_operator.Output.Sumologic.{SumologicOutput, sumologic_to_directive}
use logging_operator.Output.KinesisStream.{KinesisStreamOutputConfig, kinesis_stream_to_directive}
use logging_operator.Output.KinesisFirehose.{
  KinesisFirehoseOutputConfig, kinesis_firehose_to_directive,
}
use logging_operator.Output.Elasticsearch.{ElasticsearchOutput, elasticsearch_to_directive}
use logging_operator.Output.Opensearch.{OpenSearchOutput, opensearch_to_directive}
use logging_operator.Output.Forward.{ForwardOutput, forward_output_to_directive}

pub data Buffered (S : Type 0) : Type 0 where
  file : FileOutputConfig → Buffered S
  elasticsearch : ElasticsearchOutput S → Buffered S
  opensearch : OpenSearchOutput S → Buffered S
  forward : ForwardOutput S → Buffered S
  syslog : SyslogOutputConfig S → Buffered S
  redis : RedisOutputConfig S → Buffered S
  kafka : KafkaOutputConfig S → Buffered S
  datadog : DatadogOutput S → Buffered S
  logdna : LogDnaOutput → Buffered S
  oss : OssOutput S → Buffered S
  gcs : GcsOutput S → Buffered S
  azure : AzureStorage S → Buffered S
  sqs : SqsOutputConfig S → Buffered S
  http : HttpOutputConfig S → Buffered S
  cloudwatch : CloudWatchOutput S → Buffered S
  sumologic : SumologicOutput S → Buffered S
  kinesis_stream : KinesisStreamOutputConfig S → Buffered S
  kinesis_firehose : KinesisFirehoseOutputConfig S → Buffered S

unfoldable pub to_directive :
    {S : Type 0} → Json → Option (SecretLoader S) → Text → Buffered S → Directive ⊎ List FieldFault
to_directive json loader id (file x) = file_to_directive json loader id x
to_directive json loader id (elasticsearch x) = elasticsearch_to_directive json loader id x
to_directive json loader id (opensearch x) = opensearch_to_directive json loader id x
to_directive json loader id (forward x) = forward_output_to_directive json loader id x
to_directive json loader id (syslog x) = syslog_to_directive json loader id x
to_directive json loader id (redis x) = redis_to_directive json loader id x
to_directive json loader id (kafka x) = kafka_to_directive json loader id x
to_directive json loader id (datadog x) = datadog_to_directive json loader id x
to_directive json loader id (logdna x) = logdna_to_directive json loader id x
to_directive json loader id (oss x) = oss_to_directive json loader id x
to_directive json loader id (gcs x) = gcs_to_directive json loader id x
to_directive json loader id (azure x) = azure_to_directive json loader id x
to_directive json loader id (sqs x) = sqs_to_directive json loader id x
to_directive json loader id (http x) = http_to_directive json loader id x
to_directive json loader id (cloudwatch x) = cloudwatch_to_directive json loader id x
to_directive json loader id (sumologic x) = sumologic_to_directive json loader id x
to_directive json loader id (kinesis_stream x) = kinesis_stream_to_directive json loader id x
to_directive json loader id (kinesis_firehose x) = kinesis_firehose_to_directive json loader id x

unfoldable pub buffer_of : {S : Type 0} → Buffered S → Option Buffer
buffer_of (file x) = x.buffer
buffer_of (elasticsearch x) = x.buffer
buffer_of (opensearch x) = x.buffer
buffer_of (forward x) = x.buffer
buffer_of (syslog x) = x.buffer
buffer_of (redis x) = x.buffer
buffer_of (kafka x) = x.buffer
buffer_of (datadog x) = x.buffer
buffer_of (logdna x) = x.buffer
buffer_of (oss x) = x.buffer
buffer_of (gcs x) = x.buffer
buffer_of (azure x) = x.buffer
buffer_of (sqs x) = x.buffer
buffer_of (http x) = x.buffer
buffer_of (cloudwatch x) = x.buffer
buffer_of (sumologic x) = x.buffer
buffer_of (kinesis_stream x) = x.buffer
buffer_of (kinesis_firehose x) = x.buffer

-- The identifier that the buffer is made with
unfoldable pub buffer_id : {S : Type 0} → Text → Buffered S → Text
buffer_id id (logdna x) = id ++ codes "_logdna"
buffer_id id x = id
