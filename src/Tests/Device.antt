-- ===== src/Tests/Device.antt =====
-- The device's outbox, empty at first.
use agroassure.Prelude.{none, [], text_eq, codes, ◌++◌, arith}
use agroassure.Json.{null}
use agroassure.Hlc.{hlc_init}
use agroassure.Hashing.{Platform}
use agroassure.FieldStore.{FieldStore}
use agroassure.Outbox.{Signer, Request, author}
use agroassure.Outbox.Links.{start}
use agroassure.Outbox.Chain.{AuthorPost, author_lem}

abbrev pub platform : Platform
platform = record {
  sha256_hex = λ t. t;
  verify_signature = λ hash sig key. text_eq sig (key ++ hash);
  other_number = λ t. none;
}

abbrev pub signer : Signer
signer = record { device_id = codes "dev"; sign = λ hash. codes "K" ++ hash }

abbrev request : Request
request = record {
  aggregate_type = codes "inspection";
  aggregate_id = codes "i";
  event_type = codes "T";
  payload = null;
  now = 1700000000000;
  event_id = codes "1";
  created_at = 1700000000001;
}

abbrev empty : FieldStore
empty = record {
  outbox = [];
  evidence = [];
  prior_findings = [];
  pull_cursors = [];
  facilities = [];
  versions = [];
  inspections = [];
  responses = [];
  jurisdiction_code = none;
}

author_lem_example :
    AuthorPost platform signer
      (codes "ann")
      request
      empty
      []
      0
      (hlc_init (codes "dev"))
      none
      (author platform signer (codes "ann") request empty)
author_lem_example =
    author_lem platform signer (codes "ann") request empty 0 (hlc_init (codes "dev")) none start
      (omega arith) (omega arith)
