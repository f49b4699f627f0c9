-- ===== src/Services/Storage/Tests.antt =====
-- Runs of services/storage_service.py's service.
use aura_aioscpu.Prelude.{
  if◌then◌else◌, string_eq, nat_eq, ◌==◌, lookup, insert, ok, String, ◌≡◌, refl, inr, true, false,
  none, some, [], ◌∷◌,
}
use aura_aioscpu.Prelude.Text.{lstrip, first_part, starts_with, contains_char}
use aura_aioscpu.Services.Storage.{
  stopped, StorageService, Host, ends_with_slash, join, partition_of, is_writable, overlay_path,
  ensure_writable, read_file, publish_event, destination, write_file, clear_below, clear_tmp,
  write_layout, first_readable, detect_sd_card, start,
}
use aura_aioscpu.Services.Storage.Paths.{IsRoot}
use aura_aioscpu.Services.Storage.Partitions.{file_in, write_file_protects}
use aura_aioscpu.Services.Storage.Reads.{read_file-write_file}

abbrev host : Host String
host = record {
  resolve = λ p. p;
  host_type = "linux";
  is_readable = λ p. p == "/mnt/sdcard";
  abspath = λ p. p;
  removes = λ p. true;
  writes = λ p. true;
  layout = λ p. "layout";
}

abbrev service : StorageService String
service = record {
  rootfs = "/r";
  layout_path = "/r/layout.json";
  sd_path = none;
  is_running = false;
  state = stopped;
  files = ("/r/etc/aura.conf", "conf") ∷ ("/r/tmp/a/b", "junk") ∷ ("/r/tmpfile", "kept") ∷ [];
  has_bus = false;
  published = [];
}

start_files :
    (start host service).files
    ≡ ("/r/etc/aura.conf", "conf") ∷ ("/r/tmpfile", "kept") ∷ ("/r/layout.json", "layout") ∷ []
unfolding start publish_event write_layout clear_tmp insert clear_below starts_with join
    ends_with_slash
start_files = refl

start_sd : (start host service).sd_path ≡ some "/mnt/sdcard"
unfolding start publish_event write_layout clear_tmp detect_sd_card lookup first_readable
start_sd = refl

ensure_writable_etc : ensure_writable "/etc/x" service ≡ "/r/overlay/etc/x"
unfolding ensure_writable is_writable lookup partition_of first_part lstrip overlay_path join
    ends_with_slash
ensure_writable_etc = refl

-- The check reads the first component as it is written, so that `.` leads into a read-only partition.
ensure_writable_dot : ensure_writable "./etc/x" service ≡ "/r/./etc/x"
unfolding ensure_writable is_writable lookup partition_of first_part lstrip join ends_with_slash
ensure_writable_dot = refl

-- A host on which this path leads to the file of the partition, which is overwritten.
abbrev dotted : Host String
dotted = record host { resolve = λ p. if p == "/r/./etc/aura.conf" then "/r/etc/aura.conf" else p }

write_dot :
    lookup "/r/etc/aura.conf" (write_file dotted "./etc/aura.conf" "bad" false service).1.files
    ≡ some "bad"
unfolding lookup write_file publish_event insert destination ensure_writable is_writable
    partition_of first_part lstrip join ends_with_slash
write_dot = refl

-- An absolute path into a writable partition leaves the root.
ensure_writable_absolute : ensure_writable "/home/x" service ≡ "/home/x"
unfolding ensure_writable is_writable lookup partition_of first_part lstrip join
ensure_writable_absolute = refl

-- A file of the overlay hides what is written to the partition later.
read_hidden :
    read_file host "user/x"
      (write_file host "user/x" "new" false (write_file host "user/x" "old" true service).1).1
    ≡ ok "old"
unfolding read_file lookup write_file publish_event insert destination overlay_path join lstrip
    ends_with_slash ensure_writable is_writable partition_of first_part
read_hidden = refl

root : IsRoot "/r"
unfolding ends_with_slash
root = record { proper = refl; no_slash = refl }

write_file_protects_example :
    lookup
      (file_in "/r" "etc" "aura.conf")
      (write_file host "etc/aura.conf" "bad" false service).1.files
    ≡ lookup (file_in "/r" "etc" "aura.conf") service.files
unfolding is_writable lookup contains_char
write_file_protects_example =
    write_file_protects host "etc/aura.conf" "bad" false service "etc" "aura.conf" root refl refl
      refl refl

read_file-write_file_example :
    read_file host "user/x" (write_file host "user/x" "new" false service).1 ≡ ok "new"
unfolding lookup destination ensure_writable overlay_path join is_writable partition_of lstrip
    first_part ends_with_slash
read_file-write_file_example =
    read_file-write_file host "user/x" "new" false service refl (inr (refl, refl))
