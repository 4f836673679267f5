-- ===== src/Safety/Protocol/Unread.antt =====
-- internal/store/store.go, `ListPendingTx`, and `RecoverPending` of internal/safety/apply.go: the
-- journal's entries that this binary can't read.
use mathlib.Core.Path.{subst}
use riftroute.Base.{
  if◌then◌else◌, Bool, true, false, not, List, [], ◌∷◌, Option, none, some, select, All, ◌≡◌, refl,
  sym, ap, ◌∙◌, inl, inr, Bool-cases, arith,
}
use riftroute.Domain.{Plan}
use riftroute.Safety.Protocol.{Env}
use riftroute.Safety.Protocol.Replay.{apply_ownership}
use riftroute.Safety.Protocol.Startup.{
  Host, recover_one, recover_all, recover_listed, recover_pending,
}
use riftroute.Safety.Protocol.Steps.{apply_ownership_journal, audit_journal}
use riftroute.Store.{
  TxId, Entry, Db, same_id, clear_pending_tx, list_pending_tx, readable, read_entries, unreadable,
  add_read, add_unread,
}

-- The journal's primary key: no id twice.
abbrev pub IsKeyed : List Entry → Type 0
IsKeyed [] = Unit
IsKeyed (e ∷ es) = All (λ (f : Entry). same_id e.id f.id ≡ false) es × IsKeyed es

same_id_comm : (a b : TxId) → same_id a b ≡ same_id b a
same_id_comm a b = ground arith

-- None of the ids is that of the entry.
abbrev Apart : List TxId → TxId × Plan → Type 0
Apart ids e = All (λ (i : TxId). same_id i e.0 ≡ false) ids

add_unread-All :
    (P : TxId → Type 0) (id : TxId) (m : Option Plan) (l : List TxId)
    → P id
    → All P l
    → All P (add_unread id m l)
add_unread-All P id none l h a = (h, a)
add_unread-All P id (some p) l h a = a

unreadable_apart :
    (id : TxId) (es : List Entry)
    → All (λ (f : Entry). same_id id f.id ≡ false) es
    → All (λ (i : TxId). same_id i id ≡ false) (unreadable es)
unfolding unreadable
unreadable_apart id [] a = tt
unreadable_apart id (e ∷ es) a =
    add_unread-All (λ (i : TxId). same_id i id ≡ false) e.id (readable e) (unreadable es)
      (same_id_comm e.id id ∙ a.0) (unreadable_apart id es a.1)

add_read-All :
    (P : TxId × Plan → Type 0) (id : TxId) (m : Option Plan) (l : List (TxId × Plan))
    → ((p : Plan) → P (id, p))
    → All P l
    → All P (add_read id m l)
add_read-All P id none l h a = a
add_read-All P id (some p) l h a = (h p, a)

read_apart :
    (id : TxId) (es : List Entry)
    → All (λ (f : Entry). same_id id f.id ≡ false) es
    → All (λ (x : TxId × Plan). same_id id x.0 ≡ false) (read_entries es)
unfolding read_entries
read_apart id [] a = tt
read_apart id (e ∷ es) a =
    add_read-All (λ (x : TxId × Plan). same_id id x.0 ≡ false) e.id (readable e) (read_entries es)
      (λ p. a.0) (read_apart id es a.1)

both-Apart :
    (id : TxId) (ids : List TxId) (l : List (TxId × Plan))
    → All (λ (x : TxId × Plan). same_id id x.0 ≡ false) l
    → All (Apart ids) l
    → All (Apart (id ∷ ids)) l
both-Apart id ids [] a b = tt
both-Apart id ids (x ∷ l) a b = ((a.0, b.0), both-Apart id ids l a.1 b.1)

-- An entry at the head is either, and its id is no other's.
cons-Apart :
    (id : TxId) (m : Option Plan) (ids : List TxId) (l : List (TxId × Plan))
    → All (λ (i : TxId). same_id i id ≡ false) ids
    → All (λ (x : TxId × Plan). same_id id x.0 ≡ false) l
    → All (Apart ids) l
    → All (Apart (add_unread id m ids)) (add_read id m l)
cons-Apart id none ids l a b c = both-Apart id ids l b c
cons-Apart id (some p) ids l a b c = (a, c)

all-Apart : (es : List Entry) → IsKeyed es → All (Apart (unreadable es)) (read_entries es)
unfolding unreadable read_entries
all-Apart [] k = tt
all-Apart (e ∷ es) k =
    cons-Apart e.id (readable e) (unreadable es) (read_entries es) (unreadable_apart e.id es k.0)
      (read_apart e.id es k.0) (all-Apart es k.1)

-- Clearing an id that is no unreadable entry's leaves those.
clear_unread :
    (id : TxId) (es : List Entry)
    → All (λ (i : TxId). same_id i id ≡ false) (unreadable es)
    → unreadable (select (λ (e : Entry). not (same_id e.id id)) es) ≡ unreadable es
unfolding unreadable
clear_unread id [] a = refl
clear_unread id (e ∷ es) a = elim (Bool-cases (same_id e.id id)) [
  | inr n ↦
      rw n (ap (add_unread e.id (readable e)) (clear_unread id es (tail_of e.id (readable e) a)))
  | inl y ↦ rw y (gone (readable e) a y (clear_unread id es (tail_of e.id (readable e) a)))
]
  where
    tail_of :
        (i : TxId) (m : Option Plan)
        → All (λ (i : TxId). same_id i id ≡ false) (add_unread i m (unreadable es))
        → All (λ (i : TxId). same_id i id ≡ false) (unreadable es)
    tail_of i none h = h.1
    tail_of i (some p) h = h

    gone :
        (m : Option Plan)
        → All (λ (i : TxId). same_id i id ≡ false) (add_unread e.id m (unreadable es))
        → same_id e.id id ≡ true
        → unreadable (select (λ (e : Entry). not (same_id e.id id)) es) ≡ unreadable es
        → unreadable (select (λ (e : Entry). not (same_id e.id id)) es)
          ≡ add_unread e.id m (unreadable es)
    gone none h y ih = ground (arith, h.0, y)
    gone (some p) h y ih = ih

module _ {K P : Type 0} (env : Env K) where
  clear_pending_tx_unread :
      (id : TxId) (db : Db P)
      → All (λ (i : TxId). same_id i id ≡ false) (unreadable db.journal)
      → unreadable (clear_pending_tx env.fail id db).0.journal ≡ unreadable db.journal
  unfolding clear_pending_tx
  clear_pending_tx_unread id db a = elim (Bool-cases (env.fail.clear_pending id)) [
    | inl y ↦ rw y refl
    | inr n ↦ rw n (clear_unread id db.journal a)
  ]

  recover_one_unread :
      (e : TxId × Plan) (h : Host K P)
      → Apart (unreadable h.db.journal) e
      → unreadable (recover_one env e h).db.journal ≡ unreadable h.db.journal
  unfolding recover_one
  recover_one_unread (id, plan) h a =
      let undone : Db P = if id.route_op then h.db else apply_ownership env plan true h.db in
      let cleared = (clear_pending_tx env.fail id undone).0 in
      ap unreadable
        (audit_journal env "daemon" "recover" "reverted_pending" "" none true [] cleared)
      ∙ clear_pending_tx_unread id undone (
          subst (λ (j : List Entry). Apart (unreadable j) (id, plan))
            (sym (same_journal id.route_op)) a)
      ∙ ap unreadable (same_journal id.route_op)
    where
      same_journal :
          (b : Bool)
          → (if b then h.db else apply_ownership env plan true h.db).journal ≡ h.db.journal
      same_journal true = refl
      same_journal false = apply_ownership_journal env plan true h.db

  recover_all_unread :
      (es : List (TxId × Plan)) (h : Host K P)
      → All (Apart (unreadable h.db.journal)) es
      → unreadable (recover_all env es h).db.journal ≡ unreadable h.db.journal
  unfolding recover_all
  recover_all_unread [] h a = refl
  recover_all_unread (e ∷ es) h a =
      let one = recover_one_unread e h a.0 in
      recover_all_unread es (recover_one env e h)
        (subst (λ (ids : List TxId). All (Apart ids) es) (sym one) a.1)
      ∙ one

  recover_listed_unread :
      (es : List (TxId × Plan)) (ids : List TxId) (h : Host K P)
      → All (Apart (unreadable h.db.journal)) es
      → unreadable (recover_listed env (some (es, ids)) h).0.db.journal ≡ unreadable h.db.journal
  unfolding recover_listed
  recover_listed_unread es [] h a = recover_all_unread es h a
  recover_listed_unread es (id ∷ ids) h a = recover_all_unread es h a

  -- For any kernel and any database whose journal has no id twice: `RecoverPending`, whatever it
  -- reverts and whichever statements fail, leaves the entries that this binary can't read in the
  -- journal, for the binary that wrote them.
  pub recover_pending-unreadable :
      (h : Host K P)
      → IsKeyed h.db.journal
      → unreadable (recover_pending env h).0.db.journal ≡ unreadable h.db.journal
  unfolding recover_pending list_pending_tx recover_listed
  recover_pending-unreadable h k = listed env.fail.list_pending
    where
      listed :
          (b : Bool)
          → unreadable
              (recover_listed env
                (if b then none else some (read_entries h.db.journal, unreadable h.db.journal))
                h).0.db.journal
            ≡ unreadable h.db.journal
      listed true = refl
      listed false =
          recover_listed_unread (read_entries h.db.journal) (unreadable h.db.journal) h
            (all-Apart h.db.journal k)
