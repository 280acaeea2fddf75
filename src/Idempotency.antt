-- ===== src/Idempotency.antt =====
-- backend/app/services/idempotency_service.py with its repository: the stored answer of a request that
-- is made again.
use pix_vpn_service.Prelude.{
  ◌≡◌, refl, sym, Bool, true, false, String, Option, none, some, ◌∷◌, arith, find, find-test,
  find-update_where, update_where, is_some, str_eq, eq_iff, if◌then◌else◌,
}
use pix_vpn_service.Db.{Db}
use pix_vpn_service.Db.Contact.{IdempotencyKey}
use pix_vpn_service.Session.{Session, Result, ok, Action, return, query, modify, ◌>>=◌, ◌>>◌}
use pix_vpn_service.Session.Steps.{query_then, then_each}

abbrev pub has_key : String → IdempotencyKey → Bool
has_key key row = str_eq row.key key

-- `IdempotencyKeyRepository.get`
abbrev pub find_key : String → Db → Option IdempotencyKey
find_key key db = find (has_key key) db.idempotency_keys

abbrev pub response_of : Option IdempotencyKey → Option String
response_of none = none
response_of (some row) = row.response

-- `IdempotencyKeyRepository.reserve`: whether it inserted the row.
unfoldable pub reserve : String → String → Action Bool
reserve key operation s =
    let db = s.live in
    let row : IdempotencyKey = record { key = key; operation = operation; response = none } in
    if is_some (find_key key db)
    then (ok false, s)
    else (ok true, record s { live = record db { idempotency_keys = row ∷ db.idempotency_keys } })

abbrev pub answered : String → IdempotencyKey → IdempotencyKey
answered response row = record row { response = some response }

-- `IdempotencyKeyRepository.store_response`
unfoldable pub store_response : String → String → Action (Unit {0})
store_response key response = modify λ db. record db {
  idempotency_keys = update_where (has_key key) (answered response) db.idempotency_keys;
}

unfoldable pub compute : String → Action String → Action String
compute key generator = do response ← generator; store_response key response; return response

abbrev pub answer_or : Option String → Action String → Action String
answer_or (some response) again = return response
answer_or none again = again

-- After the reservation; false is a race that another worker has won.
unfoldable pub after_reserve : Bool → String → Action String → Action String
unfolding compute
after_reserve true key generator = compute key generator
after_reserve false key generator =
    query (find_key key) >>= λ row. answer_or (response_of row) (compute key generator)

unfoldable pub reserve_missing :
    Option IdempotencyKey → String → String → Action String → Action String
unfolding after_reserve compute reserve
reserve_missing (some row) key operation generator = compute key generator
reserve_missing none key operation generator =
    reserve key operation >>= λ inserted. after_reserve inserted key generator

-- `get_or_set`
unfoldable pub get_or_set : String → String → Action String → Action String
unfolding reserve_missing
get_or_set key operation generator = query (find_key key) >>= λ existing.
    answer_or (response_of existing) (reserve_missing existing key operation generator)

-- The answer is stored under the key.
record Stored (key response : String) (s : Session) : Type 0 where
  row : IdempotencyKey
  found : find_key key s.live ≡ some row
  answer : row.response ≡ some response

abbrev Stores : String → Result String × Session → Type 0
Stores key (r, s) = (response : String) → r ≡ ok response → Stored key response s

-- A row of the key, with or without an answer.
abbrev Reserved : String → Session → Type 0
Reserved key s = (row : IdempotencyKey) × (find_key key s.live ≡ some row)

store_response-Stored :
    (key response : String) (s : Session)
    → Reserved key s
    → Stored key response (store_response key response s).1
unfolding store_response modify
store_response-Stored key response s (row, found) =
    let p = has_key key in
    let hit : p row ≡ true = find-test p s.live.idempotency_keys row found in
    record {
      row = answered response row;
      found =
          let k =
            find-update_where p p (answered response) s.live.idempotency_keys (λ r. refl) row
              found in
          ground (arith, k);
      answer = refl;
    }

-- The generator leaves the table of keys as it is.
abbrev pub KeepsKeys : Action String → Type 0
KeepsKeys generator =
    (s : Session) → (generator s).1.live.idempotency_keys ≡ s.live.idempotency_keys

finished :
    (key response : String) (s : Session)
    → Reserved key s
    → Stores key ((store_response key response >> return response) s)
unfolding store_response modify return ◌>>=◌
finished key response s held response' e =
    let same : response ≡ response' = cc in
    rw (sym same) (store_response-Stored key response s held)

compute-Stores :
    (key : String) (generator : Action String) (s : Session)
    → KeepsKeys generator
    → Reserved key s
    → Stores key (compute key generator s)
unfolding compute
compute-Stores key generator s keeps (row, found) =
    then_each (Stores key) generator _ s (λ e failed response never. cc)
      (λ response done. finished key response _ (row, rw (keeps s) found))

row-Stores :
    (key : String) (row : IdempotencyKey) (o : Option String) (again : Action String) (s : Session)
    → row.response ≡ o
    → find_key key s.live ≡ some row
    → Stores key (again s)
    → Stores key (answer_or o again s)
unfolding return
row-Stores key row none again s e found h = h
row-Stores key row (some r) again s e found h = λ response done.
    let same : r ≡ response = cc in record { row = row; found = found; answer = rw (sym same) e }

answer_or-Stores :
    (key : String) (row : Option IdempotencyKey) (again : Action String) (s : Session)
    → find_key key s.live ≡ row
    → Stores key (again s)
    → Stores key (answer_or (response_of row) again s)
answer_or-Stores key none again s found h = h
answer_or-Stores key (some row) again s found h =
    row-Stores key row row.response again s refl found h

inserted-Stores :
    (key operation : String) (generator : Action String) (s : Session)
    → KeepsKeys generator
    → find_key key s.live ≡ none
    → Stores key ((reserve key operation >>= λ inserted. after_reserve inserted key generator) s)
unfolding reserve after_reserve ◌>>=◌
inserted-Stores key operation generator s keeps missing =
    let own : str_eq key key ≡ true = (eq_iff key key).1 refl in
    let row : IdempotencyKey = record { key = key; operation = operation; response = none } in
    let s' : Session = record s {
      live = record s.live { idempotency_keys = row ∷ s.live.idempotency_keys };
    } in
    let held : Reserved key s' = (row, rw own refl) in
    rw missing (compute-Stores key generator s' keeps held)

reserve_missing-Stores :
    (existing : Option IdempotencyKey) (key operation : String) (generator : Action String)
    (s : Session)
    → KeepsKeys generator
    → find_key key s.live ≡ existing
    → Stores key (reserve_missing existing key operation generator s)
unfolding reserve_missing
reserve_missing-Stores none key operation generator s keeps found =
    inserted-Stores key operation generator s keeps found
reserve_missing-Stores (some row) key operation generator s keeps found =
    compute-Stores key generator s keeps (row, found)

get_or_set-Stores :
    (key operation : String) (generator : Action String) (s : Session)
    → KeepsKeys generator
    → Stores key (get_or_set key operation generator s)
unfolding get_or_set
get_or_set-Stores key operation generator s keeps = query_then (Stores key) _ _ s (
    answer_or-Stores key (find_key key s.live) _ s refl
      (reserve_missing-Stores (find_key key s.live) key operation generator s keeps refl))

repeated :
    (key operation response : String) (generator : Action String) (s : Session)
    → Stored key response s
    → get_or_set key operation generator s ≡ (ok response, s)
unfolding get_or_set query return ◌>>=◌
repeated key operation response generator s h = rw h.found (rw h.answer refl)

-- Where a request under a key has been answered, and its work left the table of keys alone, a request
-- under the key gets the same answer, does none of its own work and changes nothing.
pub get_or_set_again :
    (key operation : String) (generator : Action String) (s : Session) (response : String)
    (operation' : String) (generator' : Action String)
    → KeepsKeys generator
    → let (r, s') = get_or_set key operation generator s in
      r ≡ ok response → get_or_set key operation' generator' s' ≡ (ok response, s')
get_or_set_again key operation generator s response operation' generator' keeps done =
    repeated key operation' response generator' _
      (get_or_set-Stores key operation generator s keeps response done)
