-- ===== src/Api/Dlq/Isolation.antt =====
-- What a replay changes: only dead letters of the administrator's tenant, and what it sends for them.
use edo_adapter_enterprise.Shared.{
  ℕ, Bool, not, ◌&&◌, some, List, [], ◌∷◌, ◌≡◌, ◌≢◌, sym, ◌∙◌, arith, ◌==◌, ==_iff, Option-cases,
  Bool-cases, inl, inr, ap,
}
use edo_adapter_enterprise.Shared.Tables.{select_one-holds, select_one-update_other}
use edo_adapter_enterprise.Domain.DeadLetter.{DlqEntry, mark_replayed}
use edo_adapter_enterprise.Database.Rows.{Database}
use edo_adapter_enterprise.Database.Others.{get_entry, update_entry, has_id, set_replayed}
use edo_adapter_enterprise.Api.Sessions.{CurrentUser, Session, is_admin, require_admin}
use edo_adapter_enterprise.Api.Dlq.{own, replay, replay_in_batch, replay_all, replay_batch}

replay_other :
    (now i : ℕ) (e : DlqEntry) (s : Session)
    → i ≢ e.id
    → get_entry i (replay now e s).db ≡ get_entry i s.db
unfolding replay get_entry update_entry mark_replayed
replay_other now i e s ne =
    select_one-update_other (has_id i) (has_id e.id) (set_replayed (mark_replayed now e))
      s.db.dlq_entries (λ y h. ground arith) (λ y h. ground arith)

get_entry-id : (i : ℕ) (db : Database) (e : DlqEntry) → get_entry i db ≡ some e → e.id ≡ i
unfolding get_entry
get_entry-id i db e h = (==_iff e.id i).0 (select_one-holds (has_id i) db.dlq_entries e h)

-- An entry of another tenant is not the one that is replayed.
apart :
    (user : CurrentUser) (i j : ℕ) (db : Database) (x e : DlqEntry)
    → get_entry i db ≡ some x
    → x.tenant_id ≢ user.tenant_id
    → get_entry j db ≡ some e
    → e.tenant_id ≡ user.tenant_id
    → i ≢ e.id
apart user i j db x e found foreign other tenant same =
    let same_entry : some x ≡ some e =
      sym found ∙ ap (λ k. get_entry k db) (same ∙ get_entry-id j db e other) ∙ other in
    foreign (ground arith)

module _ (user : CurrentUser) (clock : ℕ → ℕ) (force : Bool) (i : ℕ) (x : DlqEntry) where
  replay_in_batch-foreign :
      (j n : ℕ) (s : Session)
      → get_entry i s.db ≡ some x
      → x.tenant_id ≢ user.tenant_id
      → get_entry i (replay_in_batch user clock force n s (own user (get_entry j s.db))).1.db
        ≡ some x
  unfolding replay_in_batch
  replay_in_batch-foreign j n s found foreign = elim (Option-cases (get_entry j s.db)) [
    | inl e ↦ rw e found
    | inr (y, e) ↦ elim (Bool-cases (y.tenant_id == user.tenant_id)) [
      | inl t ↦
          let differs : i ≢ y.id =
            apart user i j s.db x y found foreign e ((==_iff y.tenant_id user.tenant_id).0 t) in
          rw e (
            rw t (elim (Bool-cases (not y.retryable && not force)) [
              | inl q ↦ rw q found
              | inr q ↦ rw q (replay_other (clock n) i y s differs ∙ found)
            ]))
      | inr t ↦ rw e (rw t found)
    ]
  ]

  replay_all-foreign :
      (ids : List ℕ) (n : ℕ) (s : Session)
      → get_entry i s.db ≡ some x
      → x.tenant_id ≢ user.tenant_id
      → get_entry i (replay_all user clock force ids n s).1.db ≡ some x
  unfolding replay_all
  replay_all-foreign [] n s found foreign = found
  replay_all-foreign (j ∷ ids) n s found foreign =
      let next = replay_in_batch user clock force n s (own user (get_entry j s.db)) in
      replay_all-foreign ids next.0 next.1 (replay_in_batch-foreign j n s found foreign) foreign

  -- A dead letter of another tenant stays as it is, whatever identifiers a user's batch names, and with
  -- `force` too.
  pub replay_batch-foreign :
      (ids : List ℕ) (s : Session)
      → get_entry i s.db ≡ some x
      → x.tenant_id ≢ user.tenant_id
      → get_entry i (replay_batch user clock ids force s).1.db ≡ some x
  unfolding replay_batch require_admin
  replay_batch-foreign ids s found foreign = elim (Bool-cases (is_admin user)) [
    | inl e ↦ rw e (replay_all-foreign ids 0 s found foreign)
    | inr e ↦ rw e found
  ]
