-- ===== src/Tests/StorageRuns.antt =====
-- Runs of the storage service on a small database.

use edge_link.Prelude.{ℕ, ◌+◌, ◌-◌, ◌≡◌, refl, true, false, ◌&&◌, none, [], if◌then◌else◌, codes}
use edge_link.Device.{Quality, TagValue}
use edge_link.Message.{Message}
use edge_link.Prelude.Keys.{text_eq, nat_eq}
use edge_link.Storage.{Sqlite, Service, Directories, open_database}
use edge_link.Storage.Contract.{QueueLaws}
use edge_link.Storage.Opening.{HandleLaws, open_database_lem}
use edge_link.Storage.Refinement.{storage_queue, storage_queue-QueueLaws}
use edge_link.Storage.Values.{FloatText}
use edge_link.Tests.Databases.{Rows, small_database, small_database-TableLaws}

abbrev opened : Service
opened = record { database_path = codes "edgelink.db"; database = true }

abbrev no_rows : Rows
no_rows = record { base = 6; waiting_rows = []; stored_rows = [] }

abbrev plain_text : FloatText
plain_text = record {
  print_float = λ b. codes "1";
  print_double = λ b. codes "1";
  parse_float = λ t. none;
  parse_double = λ t. none;
}

-- The value -6.
abbrev reading : Message
reading = record {
  topic = codes "device.tag.updated";
  device_id = codes "plc1";
  tag_name = codes "level";
  value = TagValue.int8 250;
  quality = Quality.good;
  timestamp = 1700000000123456789;
}

storage_queue-QueueLaws_example :
    QueueLaws (storage_queue small_database small_database-TableLaws opened)
storage_queue-QueueLaws_example =
    storage_queue-QueueLaws small_database small_database-TableLaws opened

-- A library that only counts its connections.
abbrev counting : Sqlite
counting = record {
  World = ℕ;
  open_v2 = λ path n. (false, true, n + 1);
  close_v2 = λ n. n - 1;
  busy_timeout = λ ms n. n;
  exec = λ sql n. (true, n);
  prepare = λ sql n. (true, n);
  execute = λ sql vs n. (true, n);
  changes = λ n. 0;
  query = λ sql vs n. ([], true, n);
  text_to_integer = λ t. 0;
  integer_to_text = λ n. [];
}

abbrev counting-HandleLaws : HandleLaws counting
counting-HandleLaws = record {
  handles = λ n. n;
  handles-open_v2 = λ path n. (λ h. refl, refl);
  handles-close_v2 = λ n. refl;
  handles-busy_timeout = λ ms n. refl;
  handles-exec = λ sql n. refl;
}

abbrev here_already : Directories
here_already = record {
  parent_path = codes "data";
  is_directory = true;
  directory_error = false;
  create_error = false;
  is_directory_after = true;
}

abbrev closed_service : Service
closed_service = record { database_path = codes "data/edgelink.db"; database = false }

open_database_lem_example :
    let (ok, s', n) = open_database counting here_already closed_service 4 in
    (s'.database ≡ ok)
    × (s'.database_path ≡ codes "data/edgelink.db")
    × (n ≡ 4 + (if ok && true then 1 else 0))
    × (false ≡ true → (ok ≡ true) × (s' ≡ closed_service) × (n ≡ 4))
open_database_lem_example =
    open_database_lem counting counting-HandleLaws here_already closed_service 4
