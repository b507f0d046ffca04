-- ===== src/Engine/Releases/Careful.antt =====
-- A deployment that is not allowed to be destructive.
use mrkt.Prelude.{
  String, eq_iff, eq_refl, ◌≡◌, refl, sym, ap, ◌∙◌, subst, ◌⊎◌, inl, inr, Bool, true, false, not,
  ◌&&◌, some, List, [], ◌∷◌, Memᴰ, arith, length, any, find, Bool-cases, Option-cases,
}
use mathlib.Core.List.Memᴰ
use mrkt.Manifest.Types.{Manifest, MailingList}
use mrkt.Store.Rows.{ListRow, Db}
use mrkt.Store.Query.{select_where, delete_where}
use mrkt.Store.Query.Laws.{any-upsert-hit, any-upsert-kept, delete_where-mem, select_where-mem}
use mrkt.Engine.Env.{Env}
use mrkt.Engine.Releases.Plan.{
  Deployer, DeployInput, deployed, is_live, has_id, changes_of, release_changes,
}
use mrkt.Engine.Releases.Activate.{
  same_digest, same_list, list_row, listed_again, write_list, put_list, put_lists, store_release,
  switch_to, deploy,
}
use mrkt.Engine.Releases.Parts.{some_injective, put_list-cases, prepare-careful, deploy-Deploys}

-- The tables of consent are the same.
pub record SameConsent (db db' : Db) : Type 0 where
  pub consent : db'.consent ≡ db.consent
  pub history : db'.consent_history ≡ db.consent_history
  pub tokens : db'.consent_tokens ≡ db.consent_tokens

SameConsent-trans : (a b c : Db) → SameConsent a b → SameConsent b c → SameConsent a c
SameConsent-trans a b c r s = record {
  consent = s.consent ∙ r.consent;
  history = s.history ∙ r.history;
  tokens = s.tokens ∙ r.tokens;
}

put_list-careful :
    (dp : Deployer) (p rid now : String) (l : MailingList) (db db' : Db)
    → put_list dp p rid false now l db ≡ some db'
    → write_list p rid l db ≡ db'
put_list-careful dp p rid now l db db' e = elim (put_list-cases dp p rid false now l db db' e) [
  | inl q ↦ q
  | inr (f, _) ↦ cc
]

-- The first list is written, and then the others.
put_lists-first :
    (dp : Deployer) (p rid now : String) (l : MailingList) (ls : List MailingList) (db db' : Db)
    → put_lists dp p rid false now (l ∷ ls) db ≡ some db'
    → put_lists dp p rid false now ls (write_list p rid l db) ≡ some db'
unfolding put_lists
put_lists-first dp p rid now l ls db db' e =
    elim (Option-cases (put_list dp p rid false now l db)) [
      | inl n ↦ cc (rw (n, put_lists) at e)
      | inr (next, n) ↦
          ap (λ (x : Db). put_lists dp p rid false now ls x)
            (put_list-careful dp p rid now l db next n)
          ∙ rw (n, put_lists) at e
    ]

put_lists-SameConsent :
    (dp : Deployer) (p rid now : String) (ls : List MailingList) (db db' : Db)
    → put_lists dp p rid false now ls db ≡ some db'
    → SameConsent db db'
unfolding put_lists
put_lists-SameConsent dp p rid now [] db db' e =
    subst (λ x. SameConsent db x) (some_injective e)
      (record { consent = refl; history = refl; tokens = refl })
put_lists-SameConsent dp p rid now (l ∷ ls) db db' e =
    let rest =
      put_lists-SameConsent dp p rid now ls (write_list p rid l db) db'
        (put_lists-first dp p rid now l ls db db' e) in
    record { consent = rest.consent; history = rest.history; tokens = rest.tokens }

store_release-SameConsent :
    (env : Env) (dp : Deployer) (p : String) (m : Manifest) (db : Db)
    → SameConsent db (store_release env dp p m db).1
unfolding store_release
store_release-SameConsent env dp p m db =
    elim (Option-cases (find (same_digest p (dp.digest m)) db.releases)) [
      | inl n ↦ rw (store_release, n) (record { consent = refl; history = refl; tokens = refl })
      | inr (r, n) ↦
          rw (store_release, n) (record { consent = refl; history = refl; tokens = refl })
    ]

switch_to-SameConsent :
    (p name rid now : String) (db : Db) → SameConsent db (switch_to p name rid now db)
unfolding switch_to
switch_to-SameConsent p name rid now db = record { consent = refl; history = refl; tokens = refl }

-- A list of the project that is not retired.
abbrev pub is_open_list : String → String → ListRow → Bool
is_open_list p id r = same_list p id r && not r.retired

-- Every list that is written is open, and stays so.
put_lists-opens :
    (dp : Deployer) (p rid now : String) (ls : List MailingList) (db db' : Db) (id : String)
    → put_lists dp p rid false now ls db ≡ some db'
    → (any (is_open_list p id) db.lists ≡ true) ⊎ ((l : MailingList) × Memᴰ l ls × (l.id ≡ id))
    → any (is_open_list p id) db'.lists ≡ true
unfolding put_lists
put_lists-opens dp p rid now [] db db' id e (inl h) =
    subst (λ (x : Db). any (is_open_list p id) x.lists ≡ true) (some_injective e) h
put_lists-opens dp p rid now [] db db' id e (inr (l, m, q)) = absurd (Memᴰ.not-nil m)
put_lists-opens dp p rid now (l ∷ ls) db db' id e h =
    let next = write_list p rid l db in
    put_lists-opens dp p rid now ls next db' id (put_lists-first dp p rid now l ls db db' e)
      (opened h)
  where
    kept :
        any (is_open_list p id) db.lists ≡ true
        → any (is_open_list p id) (write_list p rid l db).lists ≡ true
    kept a =
        any-upsert-kept (is_open_list p id) (same_list p l.id) (listed_again rid l)
          (list_row p rid l) db.lists (λ x t. ground arith) a

    written : l.id ≡ id → any (is_open_list p id) (write_list p rid l db).lists ≡ true
    written q =
        subst (λ z. any (is_open_list p z) (write_list p rid l db).lists ≡ true) q
          (any-upsert-hit (is_open_list p l.id) (same_list p l.id) (listed_again rid l)
            (list_row p rid l) db.lists (rw (eq_refl p, eq_refl l.id) refl) (λ x t. rw t refl))

    opened :
        (any (is_open_list p id) db.lists ≡ true)
          ⊎ ((k : MailingList) × Memᴰ k (l ∷ ls) × (k.id ≡ id))
        → (any (is_open_list p id) (write_list p rid l db).lists ≡ true)
          ⊎ ((k : MailingList) × Memᴰ k ls × (k.id ≡ id))
    opened (inl a) = inl (kept a)
    opened (inr (k, Memᴰ.head q, s)) = inl (written (ap (λ (z : MailingList). z.id) (sym q) ∙ s))
    opened (inr (k, Memᴰ.tail m, s)) = inr (k, m, s)

not_empty : (old : List ListRow) (r : ListRow) → Memᴰ r old → length old ≡ 0 → ⊥
not_empty [] r m e = Memᴰ.not-nil m
not_empty (x ∷ old) r m e = omega (arith, e)

-- What is left of `old` has every list that the manifest does not name.
left_over :
    (ls : List MailingList) (old : List ListRow) (r : ListRow)
    → Memᴰ r old
    → length (changes_of ls old).1 ≡ 0
    → (l : MailingList) × Memᴰ l ls × (l.id ≡ r.id)
unfolding changes_of
left_over [] old r m e = absurd (not_empty old r m e)
left_over (l ∷ ls) old r m e = elim (Bool-cases (has_id l.id r)) [
  | inl t ↦ (l, Memᴰ.head refl, sym ((eq_iff r.id l.id).0 t))
  | inr f ↦
      let (k, n, q) =
        left_over ls (delete_where (has_id l.id) old) r (delete_where-mem (has_id l.id) old r m f)
          e in
      (k, Memᴰ.tail n, q)
]

careful_keeps :
    (dp : Deployer) (p : String) (m : Manifest) (db : Db) (r : ListRow)
    → (release_changes dp p m db).0 ≡ false
    → Memᴰ r db.lists
    → is_live p r ≡ true
    → (l : MailingList) × Memᴰ l m.lists × (l.id ≡ r.id)
unfolding release_changes
careful_keeps dp p m db r e k live =
    let old = select_where (is_live p) db.lists in
    let left : length (changes_of m.lists old).1 ≡ 0 = ground arith in
    left_over m.lists old r (select_where-mem (is_live p) db.lists r k live) left

-- A deployment without `allow_destructive` leaves the tables of consent, of its history and of its
-- tokens as they were, and every list of the project that was not retired before it is not retired
-- after it.
pub deploy-careful :
    (env : Env) (dp : Deployer) (p : String) (i : DeployInput) (before db db' : Db)
    (rid digest : String)
    → (r : ListRow) → i.allow_destructive ≡ false
    → deploy env dp true p i before db ≡ (deployed rid digest, db')
    → Memᴰ r before.lists
    → is_live p r ≡ true
    → SameConsent db db' × (any (is_open_list p r.id) db'.lists ≡ true)
deploy-careful env dp p i before db db' rid digest r f e k live =
    let now = env.format dp.now in
    let name = i.manifest.project.name in
    let (ready, run) = deploy-Deploys env dp p i before db db' rid digest e in
    let (l, m, q) =
      careful_keeps dp p i.manifest before r (prepare-careful env dp p i before ready f) k live in
    let listing : put_lists dp p rid false now i.manifest.lists
          (switch_to p name rid now run.stored)
        ≡ some run.listed =
      ap
        (λ allow.
          put_lists dp p rid allow now i.manifest.lists (switch_to p name rid now run.stored))
        (sym f)
      ∙ run.listing in
    let stored =
      subst (λ (x : Db). SameConsent db x) (ap (λ (x : String × Db). x.1) run.storing)
        (store_release-SameConsent env dp p i.manifest db) in
    let listed =
      SameConsent-trans db (switch_to p name rid now run.stored) run.listed
        (SameConsent-trans db run.stored (switch_to p name rid now run.stored) stored
          (switch_to-SameConsent p name rid now run.stored))
        (put_lists-SameConsent dp p rid now i.manifest.lists (switch_to p name rid now run.stored)
          run.listed listing) in
    (
      subst (λ (x : Db). SameConsent db x) run.published
          (record { consent = listed.consent; history = listed.history; tokens = listed.tokens }),
      subst (λ (x : Db). any (is_open_list p r.id) x.lists ≡ true) run.published
          (put_lists-opens dp p rid now i.manifest.lists (switch_to p name rid now run.stored)
            run.listed r.id listing (inr (l, m, q))),
    )
