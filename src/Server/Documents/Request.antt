-- ===== src/Server/Documents/Request.antt =====
-- internal/server/handlers/document.go: what the handlers read of a request.
use cluster_db.Prelude.{ℕ, ◌-◌, ◌^◌, Bool, true, false, not, ◌&&◌, ◌||◌, Option, none, some}
use cluster_db.Prelude.{List, [], ◌∷◌, length, ltb, ◌==◌, if◌then◌else◌}
use cluster_db.Prelude.Bytes.{Bytes, text, bytes_eq}
use cluster_db.Prelude.Split.{split, trim}
use cluster_db.Prelude.Table.{Table, lookup}
use cluster_db.Config.Paths.{to_lower}
use cluster_db.Cluster.Gossip.{parse_int}
use cluster_db.Document.Service.Query.{cut_colon, is_operation}

-- The path of a request, its headers Content-Type and X-Cluster-Document-ID, its body (`none` if it
-- cannot be read), and its query with the first value of each parameter.
pub record DocumentRequest : Type 0 where
  pub method : Bytes
  pub path : Bytes
  pub content_type : Bytes
  pub document_id : Bytes
  pub body : Option Bytes
  pub query : Table Bytes

-- Query().Get
abbrev pub query_value : Bytes → DocumentRequest → Bytes
query_value name r = elim (lookup name r.query) [ none ↦ [] | some v ↦ v ]

-- What parseDocumentPath returns, where it is ok.
pub data Target : Type 0 where
  collection : Target
  document : Bytes → Target

-- parseDocumentPath, behind its Split.
unfoldable pub target_of_parts : List Bytes → Option Target
target_of_parts (v ∷ d ∷ rest) =
    if not (bytes_eq v (text "v1")) || not (bytes_eq d (text "documents"))
    then none
    else elim rest [
      | [] ↦ some collection
      | id ∷ more ↦ elim more [
        | [] ↦ if length id == 0 then none else some (document id)
        | x ∷ xs ↦ none
      ]
    ]
target_of_parts _ = none

-- parseDocumentPath
unfoldable pub parse_document_path : Bytes → Option Target
unfolding target_of_parts
parse_document_path path = target_of_parts (split b'/' (trim b'/' path))

-- strings.Split(s, ";")[0]
unfoldable pub first_part : List Bytes → Bytes
first_part [] = []
first_part (p ∷ ps) = p

-- isJSONContentType; `trim_space` is strings.TrimSpace.
unfoldable pub is_json_content_type : (Bytes → Bytes) → Bytes → Bool
unfolding first_part
is_json_content_type trim_space content_type =
    let media_type = to_lower (trim_space (first_part (split b';' content_type))) in
    length media_type == 0 || bytes_eq media_type (text "application/json")

-- isSupportedAggregate
unfoldable pub is_supported_aggregate : Bytes → Bool
is_supported_aggregate aggregate =
    if bytes_eq aggregate (text "count") then true else elim (cut_colon aggregate) [
      | none ↦ false
      | some (operation, field) ↦ not (length field == 0) && is_operation operation
    ]

-- strconv.Atoi of a parameter, where the result is not negative.
unfoldable pub parse_count : Bytes → Option ℕ
parse_count s = elim (parse_int s) [
  | none ↦ none
  | some n ↦ if ltb n (2 ^ 63) then none else some (n - 2 ^ 63)
]
