-- ===== src/Engine/Entry/Table.antt =====
-- What the statements on the table of keys leave of the row of a call.
use mrkt.Prelude.{
  String, ◌==◌, eq_iff, ◌≡◌, refl, ap, ◌∙◌, ◌⊎◌, inl, inr, Bool, true, false, not, ◌&&◌, none, some,
  List, [], ◌∷◌, arith, any, find, Bool-cases,
}
use mrkt.Store.Rows.{IdempotencyRow}
use mrkt.Store.Query.{equals}
use mrkt.Store.Query.Laws.{
  find-update_where, find-true, find-delete_spared, find-insert_or_ignore, any-false_of_update,
  any-false_of_delete, any-false_of_insert,
}
use mrkt.Engine.Authority.{Operation}
use mrkt.Engine.Entry.{
  Codec, pending, same_call, is_claim, is_own_claim, claim_row, TableWrite, claims, records,
  forgets, redacts, is_about_contact, with_response, write, writes,
}

-- Whether a statement concludes the call of this key.
abbrev pub concludes : String → Operation → TableWrite → Bool
concludes p op (claims _ _ _ _) = false
concludes p op (records q o _ _) =
    q == p && o.resource == op.resource && o.action == op.action && o.key == op.key
concludes p op (forgets q o) =
    q == p && o.resource == op.resource && o.action == op.action && o.key == op.key
concludes p op (redacts _ _) = false

-- Whether a statement redacts a response: the contact in it is deleted.
abbrev pub redacts_response : Codec → String → Operation → String → TableWrite → Bool
redacts_response cd p op v (redacts q contact) =
    q == p && op.resource == "contacts" && equals (cd.id_of v) contact
redacts_response cd p op v (claims _ _ _ _) = false
redacts_response cd p op v (records _ _ _ _) = false
redacts_response cd p op v (forgets _ _) = false

-- What holds of the mark of a pending call: it is no JSON, neither for Go nor for SQLite.
pub record IsNoJson (cd : Codec) : Type 0 where
  pub for_go : cd.is_json pending ≡ false
  pub for_sqlite : cd.id_of pending ≡ none

module _ (cd : Codec) (p : String) (op : Operation) where
  -- A row of the call that is neither redacted nor concluded as it is pending.
  abbrev pub Spares : IdempotencyRow → TableWrite → Type 0
  Spares x w =
      ((concludes p op w ≡ false) ⊎ ((x.response == pending) ≡ false))
      × (redacts_response cd p op x.response w ≡ false)

  write-Spares :
      (w : TableWrite) (rows : List IdempotencyRow) (x : IdempotencyRow)
      → Spares x w
      → find (same_call p op) rows ≡ some x
      → find (same_call p op) (write cd w rows) ≡ some x
  unfolding write
  write-Spares (claims q o print now) rows x s e =
      find-insert_or_ignore (same_call p op) (same_call q o) (claim_row q o print now) rows x e
  write-Spares (records q o print v) rows x (free, _) e =
      let mine = find-true (same_call p op) rows x e in
      let not_own : is_own_claim q o print x ≡ false = ground (
        arith,
        eq_iff x.project_id p,
        eq_iff x.project_id q,
        eq_iff q p,
        eq_iff x.resource op.resource,
        eq_iff x.resource o.resource,
        eq_iff o.resource op.resource,
        eq_iff x.action op.action,
        eq_iff x.action o.action,
        eq_iff o.action op.action,
        eq_iff x.key op.key,
        eq_iff x.key o.key,
        eq_iff o.key op.key,
      ) in
      find-update_where (same_call p op) (is_own_claim q o print) (with_response v) rows x
        (λ y. refl) e
      ∙ rw not_own refl
  write-Spares (forgets q o) rows x (free, _) e =
      let mine = find-true (same_call p op) rows x e in
      let not_claim : is_claim q o x ≡ false = ground (
        arith,
        eq_iff x.project_id p,
        eq_iff x.project_id q,
        eq_iff q p,
        eq_iff x.resource op.resource,
        eq_iff x.resource o.resource,
        eq_iff o.resource op.resource,
        eq_iff x.action op.action,
        eq_iff x.action o.action,
        eq_iff o.action op.action,
        eq_iff x.key op.key,
        eq_iff x.key o.key,
        eq_iff o.key op.key,
      ) in
      find-delete_spared (same_call p op) (is_claim q o) rows x e not_claim
  write-Spares (redacts q contact) rows x (_, kept) e =
      let mine = find-true (same_call p op) rows x e in
      let not_redacted : is_about_contact cd q contact x ≡ false = ground (
        arith,
        eq_iff x.project_id p,
        eq_iff x.project_id q,
        eq_iff q p,
        eq_iff x.resource op.resource,
        eq_iff x.resource "contacts",
        eq_iff op.resource "contacts",
      ) in
      find-update_where (same_call p op) (is_about_contact cd q contact)
        (with_response "{\"redacted\":true}") rows x (λ y. refl) e
      ∙ rw not_redacted refl

  no_id-Spares :
      (w : TableWrite) (x : IdempotencyRow)
      → cd.id_of x.response ≡ none
      → redacts_response cd p op x.response w ≡ false
  no_id-Spares (claims _ _ _ _) x n = refl
  no_id-Spares (records _ _ _ _) x n = refl
  no_id-Spares (forgets _ _) x n = refl
  no_id-Spares (redacts q contact) x n = rw n (ground arith)

  -- While a call is pending, nothing of others touches its row.
  pub writes-spare_claim :
      (ws : List TableWrite) (rows : List IdempotencyRow) (x : IdempotencyRow)
      → IsNoJson cd
      → x.response ≡ pending
      → any (concludes p op) ws ≡ false
      → find (same_call p op) rows ≡ some x
      → find (same_call p op) (writes cd ws rows) ≡ some x
  writes-spare_claim [] rows x s m h e = e
  writes-spare_claim (w ∷ ws) rows x s m h e =
      let here : concludes p op w ≡ false = ground arith in
      let no_id : cd.id_of x.response ≡ none = ap cd.id_of m ∙ s.for_sqlite in
      let kept = write-Spares w rows x (inl here, no_id-Spares w x no_id) e in
      writes-spare_claim ws (write cd w rows) x s m (rw here at h) kept

  -- Once a call has been answered, only the deletion of a contact in its response touches its row.
  pub writes-spare_answered :
      (ws : List TableWrite) (rows : List IdempotencyRow) (x : IdempotencyRow)
      → (x.response == pending) ≡ false
      → any (redacts_response cd p op x.response) ws ≡ false
      → find (same_call p op) rows ≡ some x
      → find (same_call p op) (writes cd ws rows) ≡ some x
  writes-spare_answered [] rows x m h e = e
  writes-spare_answered (w ∷ ws) rows x m h e =
      let here : redacts_response cd p op x.response w ≡ false = ground arith in
      writes-spare_answered ws (write cd w rows) x m (rw here at h)
        (write-Spares w rows x (inr m, here) e)

  -- A row of the call that has been answered.
  abbrev pub is_concluded : IdempotencyRow → Bool
  is_concluded y = same_call p op y && not (y.response == pending)

  -- A pending row is not redacted.
  pending-not_redactable :
      (q contact : String) (y : IdempotencyRow)
      → IsNoJson cd
      → is_about_contact cd q contact y ≡ true
      → is_concluded y ≡ false
      → is_concluded (with_response "{\"redacted\":true}" y) ≡ false
  pending-not_redactable q contact y s t f = elim (Bool-cases (y.response == pending)) [
    | inr n ↦ ground arith
    | inl m ↦
        let none_there : cd.id_of y.response ≡ none =
          ap cd.id_of ((eq_iff y.response pending).0 m) ∙ s.for_sqlite in
        let bad : y.project_id == q && y.resource == "contacts" && equals none contact ≡ true =
          rw none_there at t in
        ground arith
  ]

  write-leaves_open :
      (w : TableWrite) (rows : List IdempotencyRow)
      → IsNoJson cd
      → concludes p op w ≡ false
      → any is_concluded rows ≡ false
      → any is_concluded (write cd w rows) ≡ false
  unfolding write
  write-leaves_open (claims q o print now) rows s h e =
      any-false_of_insert is_concluded (same_call q o) (claim_row q o print now) rows (ground arith)
        e
  write-leaves_open (records q o print v) rows s h e =
      any-false_of_update is_concluded (is_own_claim q o print) (with_response v) rows
        (λ y t f. ground (
          arith,
          eq_iff y.project_id p,
          eq_iff y.project_id q,
          eq_iff q p,
          eq_iff y.resource op.resource,
          eq_iff y.resource o.resource,
          eq_iff o.resource op.resource,
          eq_iff y.action op.action,
          eq_iff y.action o.action,
          eq_iff o.action op.action,
          eq_iff y.key op.key,
          eq_iff y.key o.key,
          eq_iff o.key op.key,
        ))
        e
  write-leaves_open (forgets q o) rows s h e =
      any-false_of_delete is_concluded (is_claim q o) rows e
  write-leaves_open (redacts q contact) rows s h e =
      any-false_of_update is_concluded (is_about_contact cd q contact)
        (with_response "{\"redacted\":true}") rows
        (λ y t f. pending-not_redactable q contact y s t f) e

  pub writes-leave_open :
      (ws : List TableWrite) (rows : List IdempotencyRow)
      → IsNoJson cd
      → any (concludes p op) ws ≡ false
      → any is_concluded rows ≡ false
      → any is_concluded (writes cd ws rows) ≡ false
  writes-leave_open [] rows s h e = e
  writes-leave_open (w ∷ ws) rows s h e =
      let here : concludes p op w ≡ false = ground arith in
      writes-leave_open ws (write cd w rows) s (rw here at h) (write-leaves_open w rows s here e)
