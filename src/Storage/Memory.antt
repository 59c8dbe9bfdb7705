-- ===== src/Storage/Memory.antt =====
-- A flash that never fails, as a function from ids: it meets what `IsLawful` asks.
use tag_testting.Common.{ℕ, true, Option, none, some, List, ◌==◌, if◌then◌else◌, arith}
use tag_testting.Storage.{Nvs, IsLawful}

abbrev pub memory : Nvs
memory = record {
  Flash = ℕ → Option (List ℕ);
  nvs_read = λ f id. f id;
  nvs_write = λ f id item. (λ other. if other == id then some item else f other, true);
  nvs_delete = λ f id. (λ other. if other == id then none else f other, true);
}

pub memory-IsLawful : IsLawful memory
memory-IsLawful = record {
  read-write = λ f id item h. ground arith;
  read-write_ne = λ f id other item h. ground arith;
  read-delete = λ f id h. ground arith;
}
