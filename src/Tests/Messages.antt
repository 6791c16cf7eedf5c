-- ===== src/Tests/Messages.antt =====
-- The round trips, sizes and ends of whole messages at concrete ones.
use verfploeter.Prelude.{◌≡◌, ◌≢◌, refl, true, [], ◌∷◌, some, length, arith}
use verfploeter.Schema.Wire
use verfploeter.Schema.Wire.Sizes.{Counts}
use verfploeter.Schema.Address
use verfploeter.Schema.Metadata
use verfploeter.Schema.Metadata.{Metadata}
use verfploeter.Schema.Client
use verfploeter.Schema.Client.{Client}
use verfploeter.Schema.Ping
use verfploeter.Schema.Ping.{Ping}
use verfploeter.Schema.Task
use verfploeter.Schema.Task.{Task, ping}
use verfploeter.Schema.Task.RoundTrip.{IsTask, Task-merge_from}
use verfploeter.Schema.PingResult
use verfploeter.Schema.PingResult.{PingResult}
use verfploeter.Schema.Result
use verfploeter.Schema.PingPayload
use verfploeter.Schema.Result.{Result, ping as result_ping}
use verfploeter.Schema.TaskResult
use verfploeter.Schema.TaskResult.{TaskResult}
use verfploeter.Schema.TaskResult.RoundTrip.{
  IsTaskResult, TaskResult-compute_size, TaskResult-merge_from,
}
use verfploeter.Schema.TaskResult.Termination.{TaskResult-ne-out_of_fuel}
use verfploeter.Schema.Initialized.{TaskResult-is_initialized}
use verfploeter.Tests.Schema.{
  address, address-IsAddress, short_v6, short_v6-IsAddress, payload, payload-IsPingPayload,
}
use verfploeter.Tests.Crates.Varint.{encode}
use verfploeter.Tests.Crates.Text.{bytes}
use verfploeter.Tests.Crates.Wire.{
  varint, tag, string_body, format, format-IsProtobuf, unit_default,
}
use verfploeter.Tests.Crates.Reader.{format-IsReader}

abbrev task : Task (Unit {0})
task = record {
  task_id = 300;
  kind = some (
      ping (record {
        source_address = some address;
        destination_addresses = short_v6 ∷ address ∷ [];
        unknown_fields = tt;
      }));
  unknown_fields = tt;
}

task-IsTask : IsTask task
task-IsTask = record {
  task_id = omega arith;
  kind = record {
    source_address = address-IsAddress;
    destination_addresses = (short_v6-IsAddress, (address-IsAddress, tt));
    unknown_fields = refl;
  };
  unknown_fields = refl;
}

task-length : length (Task.write_to format task) ≡ 26
unfolding Task.write_to Ping.write_to Ping.compute_size Address.write_to Address.compute_size format
    varint tag encode
task-length = refl

Task-merge_from_example : Task.merge_from format Task.new (Task.write_to format task) ≡ Wire.ok task
Task-merge_from_example =
    Task-merge_from format format-IsProtobuf task task-IsTask (omega (arith, task-length))

-- A client's list of one reply.
abbrev task_result : TaskResult (Unit {0})
task_result = record {
  task_id = 300;
  client = some (record {
    index = 2;
    metadata = some (record { hostname = "ams"; version = "0.1"; unknown_fields = tt });
    unknown_fields = tt;
  });
  result_list =
      record {
        value = some (
            result_ping (record {
              source_address = some address;
              destination_address = some short_v6;
              receive_time = 1234568;
              payload = some payload;
              ttl = 54;
              unknown_fields = tt;
            }));
        unknown_fields = tt;
      }
      ∷ [];
  is_finished = true;
  unknown_fields = tt;
}

task_result-IsTaskResult : IsTaskResult task_result
task_result-IsTaskResult = record {
  task_id = omega arith;
  client = record {
    index = omega arith;
    metadata = record { unknown_fields = refl };
    unknown_fields = refl;
  };
  result_list = (
    record {
      value = record {
        source_address = address-IsAddress;
        destination_address = short_v6-IsAddress;
        receive_time = omega arith;
        payload = payload-IsPingPayload;
        ttl = omega arith;
        unknown_fields = refl;
      };
      unknown_fields = refl;
    },
    tt,
  );
  unknown_fields = refl;
}

task_result-length : length (TaskResult.write_to format task_result) ≡ 80
unfolding TaskResult.write_to Client.write_to Client.compute_size Metadata.write_to
    Metadata.compute_size Result.write_to Result.compute_size PingResult.write_to
    PingResult.compute_size PingPayload.write_to PingPayload.compute_size Address.write_to
    Address.compute_size format varint tag string_body bytes encode
task_result-length = refl

TaskResult-merge_from_example :
    TaskResult.merge_from format TaskResult.new (TaskResult.write_to format task_result)
    ≡ Wire.ok task_result
TaskResult-merge_from_example =
    TaskResult-merge_from format format-IsProtobuf task_result task_result-IsTaskResult
      (omega (arith, task_result-length))

TaskResult-compute_size_example :
    Counts
      (TaskResult.compute_size format task_result)
      (length (TaskResult.write_to format task_result))
TaskResult-compute_size_example = TaskResult-compute_size format format-IsProtobuf task_result

-- A list whose second reply is cut off.
TaskResult-ne-out_of_fuel_example :
    TaskResult.merge_from format TaskResult.new (26 ∷ 0 ∷ 26 ∷ 9 ∷ 1 ∷ []) ≢ Wire.out_of_fuel
TaskResult-ne-out_of_fuel_example =
    TaskResult-ne-out_of_fuel format format-IsReader TaskResult.new (26 ∷ 0 ∷ 26 ∷ 9 ∷ 1 ∷ [])

task_result_initialized : TaskResult.is_initialized task_result ≡ true
task_result_initialized = TaskResult-is_initialized task_result
