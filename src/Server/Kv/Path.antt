-- ===== src/Server/Kv/Path.antt =====
-- The key that a path names.
use cluster_db.Prelude.{◌≡◌, refl, sym, ap, ◌∙◌, arith, none, some}
use cluster_db.Prelude.{List, [], ◌∷◌, ◌++◌, length, ◌==◌, if◌then◌else◌}
use cluster_db.Prelude.Bytes.{Bytes, text, bytes_eq}
use cluster_db.Prelude.Split.{split, split_cons, join, join-split, trim, trim_left, trim_right}
use cluster_db.Server.Kv.Serve.{key_of_parts, extract_key}

-- Without its trailing slashes.
abbrev pub unslashed : Bytes → Bytes
unslashed k = trim_right b'/' k

key_found :
    (s p : Bytes) (ps : List Bytes)
    → join b'/' (p ∷ ps) ≡ s
    → key_of_parts (text "v1" ∷ text "kv" ∷ p ∷ ps) ≡ (if length s == 0 then none else some s)
unfolding key_of_parts bytes_eq
key_found s p ps e = ap (λ (x : Bytes). if length x == 0 then none else some x) e

key_of_split :
    (s : Bytes)
    → key_of_parts (text "v1" ∷ text "kv" ∷ split b'/' s) ≡ (if length s == 0 then none else some s)
key_of_split s =
    let (p, ps, e) = split_cons b'/' s in
    ap (λ (x : List Bytes). key_of_parts (text "v1" ∷ text "kv" ∷ x)) e
    ∙ key_found s p ps (sym (ap (join b'/') e) ∙ join-split b'/' s)

trimmed :
    (k t : Bytes)
    → trim_right b'/' k ≡ t
    → extract_key (text "/v1/kv/" ++ k) ≡ (if length t == 0 then none else some t)
unfolding extract_key trim trim_left trim_right split key_of_parts
trimmed k [] e = ground (arith, e)
trimmed k (d ∷ t) e =
    let q : trim b'/' (text "/v1/kv/" ++ k) ≡ text "v1/kv/" ++ (d ∷ t) = ground (arith, e) in
    ap (λ (x : Bytes). key_of_parts (split b'/' x)) q ∙ key_of_split (d ∷ t)

-- extractKey of "/v1/kv/" and a text gives the text without its trailing slashes, or nothing if
-- there is nothing else in it; slashes inside and in front stay.
pub extract_key_lem :
    (k : Bytes)
    → extract_key (text "/v1/kv/" ++ k)
      ≡ (if length (unslashed k) == 0 then none else some (unslashed k))
extract_key_lem k = trimmed k (unslashed k) refl
