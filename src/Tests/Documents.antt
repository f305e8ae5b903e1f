-- ===== src/Tests/Documents.antt =====
-- Documents that are posted and read over HTTP, and sorted.
use cluster_db.Prelude.{◌≡◌, refl, none, some, ok, ◌>>=◌, []}
use cluster_db.Prelude.Bytes.{Bytes, text, bytes_eq}
use cluster_db.Prelude.Split.{split, trim, trim_left, trim_right}
use cluster_db.Prelude.Table.{Table, lookup, insert}
use cluster_db.Storage.Manager.{store_put, check_manager, delegate}
use cluster_db.Memory.Engine.{check_open, validate_key, on_disk}
use cluster_db.Memory.Lifecycle.{append_wal, maybe_checkpoint}
use cluster_db.Memory.Ops.{put, commit, put_record}
use cluster_db.Os.Disk.{now}
use cluster_db.Config.Paths.{to_lower}
use cluster_db.Cluster.Membership.{empty_node}
use cluster_db.Document.Service.{with_id, create_with_id, validate_document}
use cluster_db.Document.Service.Stored.{HasId}
use cluster_db.Server.Documents.Request.{
  DocumentRequest, collection, document, parse_document_path, target_of_parts, first_part,
  is_json_content_type,
}
use cluster_db.Server.Documents.Handler.{
  Outside, DocumentHandler, created_with, found_one, document_route, create_here, create_routed,
  handle_create, serve_documents,
}
use cluster_db.Server.Documents.Served.{IsShardHere, found_one-created_with}
use cluster_db.Tests.Memory.{steady}
use cluster_db.Tests.Sorting.{only_texts}
use cluster_db.Tests.Stable.{stable}
use cluster_db.Tests.Service.{texts, plain, reads, empty, red, write, read, write_all, in_pairs}

abbrev alone : Outside texts only_texts (Unit {0})
alone = record {
  trim_space = λ s. s;
  path_escape = λ s. s;
  new_id = λ w. text "7";
  send = λ a q w. (none, w);
}

abbrev post : DocumentRequest
post = record {
  method = text "POST";
  path = text "/v1/documents";
  content_type = text "Application/JSON;charset=utf-8";
  document_id = [];
  body = some (write_all red);
  query = [];
}

abbrev read_seven : DocumentRequest
read_seven = record {
  method = text "GET";
  path = text "/v1/documents/7";
  content_type = [];
  document_id = [];
  body = some [];
  query = [];
}

abbrev node : DocumentHandler (Unit {0})
node = record { service = some empty; cluster = none; peers = tt }

post_path : parse_document_path post.path ≡ some collection
unfolding parse_document_path target_of_parts split trim trim_left trim_right bytes_eq
post_path = refl

read_path : parse_document_path read_seven.path ≡ some (document (text "7"))
unfolding parse_document_path target_of_parts split trim trim_left trim_right bytes_eq
read_path = refl

red_valid : validate_document texts plain (write_all red) ≡ ok red
unfolding validate_document write_all write read in_pairs
red_valid = refl

seven_here : IsShardHere stable none (text "7")
unfolding document_route
seven_here = (empty_node, refl)

seven_created :
    (serve_documents texts plain only_texts alone steady stable post node).0
    ≡ created_with (text "7")
unfolding serve_documents handle_create create_routed create_here document_route
    is_json_content_type first_part to_lower parse_document_path target_of_parts split trim
    trim_left trim_right bytes_eq validate_document write_all write read in_pairs create_with_id
    with_id store_put check_manager delegate put commit validate_key check_open on_disk now
    append_wal maybe_checkpoint ◌>>=◌ put_record insert lookup
seven_created = refl

found_one-created_with_example :
    (d : Table Bytes) × HasId texts plain (text "7") red d
    × ((serve_documents texts plain only_texts alone steady stable read_seven
          (serve_documents texts plain only_texts alone steady stable post node).1).0
        ≡ found_one d)
found_one-created_with_example =
    found_one-created_with texts plain only_texts alone steady stable empty none tt post
      (write_all red) red refl post_path refl red_valid (text "7") read_seven refl seven_here
      (reads (with_id texts plain (text "7") red)) refl read_path seven_created
