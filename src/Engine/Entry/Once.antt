-- ===== src/Engine/Entry/Once.antt =====
-- An operation with an idempotency key is run at most once.
use mrkt.Prelude.{ℕ, String, ◌≡◌, ◌⊎◌, true, false, none, List, any, find, ltb}
use mrkt.Store.Rows.{IdempotencyRow}
use mrkt.Engine.Env.{Env}
use mrkt.Engine.Authority.{Authority, Operation, Failure, failure, authorize_operation}
use mrkt.Engine.Entry.{
  err, Codec, is_unrecorded, makes_secret, project_of, same_call, claim_row, claims, write, writes,
  Meanwhile, do_operation,
}
use mrkt.Engine.Entry.Table.{concludes, IsNoJson}

-- The run of a call whose key is free, with its claim in the table and what others write after it.
module _ (cd : Codec) (a : Authority) (op : Operation) (w : Meanwhile) (p print now : String)
    (rows : List IdempotencyRow) (s : IsNoJson cd) (n : any (same_call p op) rows ≡ false)
    (h : any (concludes p op) w.during ≡ false) where
  abbrev claim : IdempotencyRow
  claim = claim_row p op print now

  abbrev found : List IdempotencyRow
  found = writes cd w.during (write cd (claims p op print now) rows)

-- The case of an operation that is recorded, authorised and makes no secret.
abbrev pub IsRecorded : Authority → Operation → Type 0
IsRecorded a op =
    (is_unrecorded op ≡ false)
    × (authorize_operation a op (project_of a op) ≡ none)
    × (makes_secret op ≡ false)

-- What an error leaves of the key of a call that no earlier one has used.
abbrev pub AfterError :
    Env
    → Codec
    → Authority
    → Operation
    → Meanwhile
    → ℕ
    → (e : Failure) → List IdempotencyRow
    → Type 0
AfterError env cd a op w' later e after =
    (ltb e.status 500 ≡ true) × (find (same_call (project_of a op) op) after ≡ none)
    ⊎ (ltb e.status 500 ≡ false)
      × (do_operation env cd a op w' later after
          ≡ (err (failure "idempotency_in_progress" 409), after))
