-- ===== src/Examples/Protocol.antt =====
-- The apply protocol at work: a plan that fails half way, one on probation, a crash, a panic, and a
-- journal with an entry from a newer release.
use riftroute.Base.{
  ℕ, ◌+◌, if◌then◌else◌, true, false, not, List, [], ◌∷◌, ◌++◌, map, select, str_eq, none, some,
  ◌≡◌, refl, inl, arith,
}
use riftroute.Netip.Syntax.{Syntax}
use riftroute.Domain.{ManagedRoute, add_route, del_route, family_v4, family_v6, Plan}
use riftroute.Netip.{masked}
use riftroute.Routing.Keys.{dst_key, route_key}
use riftroute.Routing.Verify.{has, index_installed, masked_dst_key, gateway_key}
use riftroute.Routing.Plan.{make_route_op, invert}
use riftroute.Safety.Executor.{do_op, apply}
use riftroute.Safety.Panic.{flush, delete_all}
use riftroute.Safety.Panic.Flushed.{Flushed, flush-Flushed}
use riftroute.Safety.Protocol.{
  commit, rollback, rollback_watchdog, rec_open, PendingTx, Protocol, Env, Options,
}
use riftroute.Safety.Protocol.Replay.{without_tunnel_links}
use riftroute.Safety.Protocol.Replayed.{Replayed, roll_back-Replayed}
use riftroute.Safety.Protocol.Settle.{shutdown_resolve}
use riftroute.Safety.Protocol.Execute.{execute_plan}
use riftroute.Safety.Protocol.Apply
use riftroute.Safety.Protocol.Apply.{Call, apply_plan}
use riftroute.Safety.Protocol.Startup.{recover_pending}
use riftroute.Safety.Protocol.Invariant.{entry_of, IsValid}
use riftroute.Safety.Protocol.Reach.{applied_plan, shut_down, here, next, Reach-IsValid}
use riftroute.Safety.Protocol.Final.{Settled, finish_by-Settled}
use riftroute.Safety.Protocol.Recovered.{recover_pending-execute_plan}
use riftroute.Safety.Protocol.Untouched.{Untouched, apply-Untouched}
use riftroute.Safety.Protocol.Vet.{keep_default_route, check_plan_guardrails, default_of}
use riftroute.Safety.Protocol.Vetted.{ends_removed, check_plan_guardrails_lem}
use riftroute.Safety.Protocol.Unread.{recover_pending-unreadable}
use riftroute.Store.{Entry, Db, no_faults, unreadable, list_owned, del_owned}
use riftroute.Examples.Data.{syntax, direct, narrow}
use riftroute.Examples.Safety.{refusing, plan, both}

abbrev env : Env (List ManagedRoute)
env = record {
  prov = refusing;
  list_routes = λ k f. some (map (λ (m : ManagedRoute). m.route) k);
  list_rules = λ k f. some [];
  lookup = λ k a. none;
  flush_owned = λ k. k;
  fail = no_faults;
  syntax = syntax;
  peer = none;
}

abbrev no_rows : Db ℕ
no_rows = record { owned = []; journal = []; audit = []; snapshots = []; profiles = [] }

-- `outside` counts the records that ran.
abbrev start : Protocol (List ManagedRoute) ℕ ℕ
start = record {
  kernel = [];
  db = no_rows;
  outside = 0;
  pending = [];
  resolved = [];
  idseq = 0;
  last_tx = none;
  live = λ k. none;
  panicking = 0;
  quiesced = false;
  lent = false;
}

abbrev guarded : Options ℕ ℕ
guarded = record {
  dry_run = false;
  interactive = false;
  confirm_timeout = 0;
  guard_window = 0;
  actor = "cli";
  phys_gw = none;
  snapshot_profiles = none;
  vet_changes_only = false;
  unguarded = false;
  on_commit = some (λ n. n + 1);
  built_on_record = false;
  lendable = false;
  background = false;
}

abbrev call : Call
call = record { now = 7; gone = false }

-- A change that the watchdog has already decided to take back.
abbrev tx : PendingTx ℕ
tx = record {
  id = record { route_op = false; seq = 1 };
  plan = plan (make_route_op add_route direct ∷ []);
  interactive = true;
  ownership = true;
  decided = some rollback_watchdog;
  on_commit = some (λ n. n + 1);
  rec = rec_open;
  actor = "cli";
}

abbrev waiting : Protocol (List ManagedRoute) ℕ ℕ
waiting = record start {
  kernel = direct ∷ [];
  db = record no_rows { owned = direct ∷ []; journal = entry_of tx.id tx.plan ∷ [] };
  pending = tx ∷ [];
  idseq = 1;
}

start-IsValid : IsValid start
start-IsValid = record { past = tt; single = inl refl }

Reach-IsValid_example :
    IsValid (shutdown_resolve env (apply_plan {B = ℕ} env call "edit" both guarded start).0)
Reach-IsValid_example =
    Reach-IsValid ℕ env (λ id. refl) {p = start}
      {q = shutdown_resolve env (apply_plan {B = ℕ} env call "edit" both guarded start).0}
      start-IsValid (next (next here (applied_plan call "edit" both guarded refl)) (shut_down refl))

finish_by-Settled_example : Settled env waiting tx commit rollback
finish_by-Settled_example = finish_by-Settled env commit rollback waiting tx (record {
  only = refl;
  unresolved = refl;
  used = omega arith;
  open_record = refl;
  journaled = refl;
})

recover_pending-execute_plan_example :
    let q = (execute_plan {B = ℕ} env 7 "apply" both guarded true start).0 in
    (recover_pending env (record { kernel = q.kernel; db = q.db })).0.kernel ≡ []
unfolding apply do_op dst_key without_tunnel_links invert
recover_pending-execute_plan_example =
    recover_pending-execute_plan ℕ env
      (record { put = λ id. refl; clear = λ id. refl; list = refl }) 7 "apply" both guarded true
      start refl refl
      (
        record { undone = λ e. refl; unharmed = λ n. absurd (n refl) },
        (record { undone = λ e. cc; unharmed = λ n. refl }, tt),
      )
      refl refl

roll_back-Replayed_example : Replayed env tx (direct ∷ []) no_rows
unfolding invert
roll_back-Replayed_example = roll_back-Replayed env tx (direct ∷ []) no_rows (refl, tt)

apply-Untouched_example :
    Untouched waiting
      (Apply.apply {B = ℕ} env call (direct ∷ []) [] (record guarded { dry_run = true }) waiting).0
apply-Untouched_example =
    apply-Untouched ℕ env call (direct ∷ []) [] (record guarded { dry_run = true }) waiting refl

-- The plan takes 0/0 away and puts nothing in its place.
abbrev reads_default : Syntax
reads_default = record syntax {
  parse_prefix = λ s. some (record { is4 = true; value = 0; bits = 0 });
}

abbrev removal : Plan
removal = plan (make_route_op add_route direct ∷ make_route_op del_route direct ∷ [])

vet_test : check_plan_guardrails reads_default removal ≡ keep_default_route family_v4 ∷ []
unfolding check_plan_guardrails default_of
vet_test = refl

check_plan_guardrails_lem_example :
    check_plan_guardrails reads_default removal
    ≡ (if ends_removed reads_default true false removal.ops
        then keep_default_route family_v4 ∷ []
        else [])
      ++ (if ends_removed reads_default false false removal.ops
          then keep_default_route family_v6 ∷ []
          else [])
check_plan_guardrails_lem_example = check_plan_guardrails_lem reads_default removal

abbrev from_newer : Entry
from_newer = record { id = record { route_op = true; seq = 3 }; format = some 2; doc = none }

abbrev two_entries : Db ℕ
two_entries = record no_rows { journal = from_newer ∷ entry_of tx.id tx.plan ∷ [] }

recover_pending-unreadable_example :
    unreadable
      (recover_pending env (record { kernel = direct ∷ []; db = two_entries })).0.db.journal
    ≡ from_newer.id ∷ []
unfolding unreadable
recover_pending-unreadable_example =
    recover_pending-unreadable env (record { kernel = direct ∷ []; db = two_entries })
      ((refl, tt), (tt, tt))

-- A panic that can't delete 10.1/16: its row stays, and the other goes.
abbrev stuck : Env (List ManagedRoute)
stuck = record env {
  prov = record refusing {
    del_route = λ m k.
        if str_eq m.route.dst_cidr "10.1.0.0/16"
        then (k, some "refused")
        else (select (λ x. not (str_eq (dst_key x.route) (dst_key m.route))) k, none);
  };
}

abbrev two_rows : Db ℕ
two_rows = record no_rows { owned = direct ∷ narrow ∷ [] }

flush_test :
    let out = flush stuck (direct ∷ narrow ∷ []) two_rows in
    (out.1.owned ≡ narrow ∷ []) × (out.2 ≡ narrow ∷ []) × (out.3 ≡ true)
unfolding flush list_owned has index_installed dst_key masked_dst_key masked gateway_key route_key
    del_owned
flush_test = (refl, refl, refl)

flush-Flushed_example :
    Flushed stuck two_rows
      (delete_all stuck (direct ∷ narrow ∷ []) (direct ∷ narrow ∷ [])).1
      (flush stuck (direct ∷ narrow ∷ []) two_rows)
flush-Flushed_example = flush-Flushed stuck (direct ∷ narrow ∷ []) two_rows refl
