-- ===== src/Fleet/Nodes/Leads.antt =====
-- What the repository's calls make of a node that is dead (src/fleet/node-state-machine.ts,
-- src/fleet/drizzle-node-repository.ts).
use platform_core.Base.{
  ℕ, ◌≡◌, refl, sym, ◌⊎◌, inl, inr, true, none, some, nat_eq, Bool-cases, Option-cases, arith,
}
use platform_core.Base.Dict.{lookup}
use platform_core.Fleet.NodeStatus.{
  NodeStatus, valid_transitions, is_valid_transition, is_dead, is_valid_transition-is_dead,
}
use platform_core.Fleet.Nodes.Types.{Node, Reason, NodeRegistration, NodeDb}
use platform_core.Fleet.Nodes.Repository.{
  get_by_id, update_node, insert_node, commit_transition, transition, insert_active, new_node,
  refresh, register, update_found, agent,
}
use platform_core.Fleet.Nodes.Trail.{
  update_node-status, insert_node-cases, commit_transition-CommitOutcome,
}
use platform_core.Fleet.Nodes.Steps.{transition_keeps, insert_active_keeps, update_found_keeps}

-- A node that is dead in the first tables has, if it is in the second, a status as given.
abbrev pub Leads : (NodeStatus → Type 0) → NodeDb → NodeDb → Type 0
Leads P db db' =
    (j : ℕ) (n n' : Node)
    → lookup j db.nodes ≡ some n
    → is_dead n.status ≡ true
    → lookup j db'.nodes ≡ some n'
    → P n'.status

abbrev pub StillDead : NodeDb → NodeDb → Type 0
StillDead = Leads (λ s. is_dead s ≡ true)

abbrev pub Gated : NodeDb → NodeDb → Type 0
Gated = Leads (λ s. (is_dead s ≡ true) ⊎ (s ≡ NodeStatus.returning))

dead_of : (a b : NodeStatus) → b ≡ a → is_dead a ≡ true → is_dead b ≡ true
dead_of a b e h = rw e h

StillDead-Gated : (db db' : NodeDb) → StillDead db db' → Gated db db'
StillDead-Gated db db' s j n n' e d h = inl (s j n n' e d h)

pub StillDead-refl : (db : NodeDb) → StillDead db db
StillDead-refl db j n n' e d h = dead_of n.status n'.status (same e h) d
  where
    same : lookup j db.nodes ≡ some n → lookup j db.nodes ≡ some n' → n'.status ≡ n.status
    same p q = cc

update_node-StillDead :
    (id : ℕ) (f : Node → Node) (db0 db : NodeDb)
    → ((n : Node) → (f n).status ≡ n.status)
    → StillDead db0 db
    → StillDead db0 (update_node id f db)
update_node-StillDead id f db0 db keep s j n n' e d h =
    let (k, q, r) = update_node-status id f db j keep h in
    dead_of k.status n'.status r (s j n k e d q)

insert_node-StillDead : (m : Node) (db : NodeDb) → StillDead db (insert_node m db).1
insert_node-StillDead m db j n n' e d h = elim (insert_node-cases m db j h) [
  | inl q ↦ StillDead-refl db j n n' e d q
  | inr (q, _) ↦ absurd (none_some e q)
]
  where
    none_some : lookup j db.nodes ≡ some n → lookup j db.nodes ≡ none → ⊥
    none_some p q = cc

-- Where a transaction of `transition` leads a node that is dead before it.
pub commit_transition-Leads :
    (P : NodeStatus → Type 0) (id : ℕ) (m : Node) (to : NodeStatus) (reason : Reason) (by now : ℕ)
    (db0 db : NodeDb)
    → ((s : NodeStatus) → is_dead s ≡ true → P s)
    → (is_dead m.status ≡ true → P to)
    → StillDead db0 db
    → Leads P db0 (commit_transition id m to reason by now db).1
commit_transition-Leads P id m to reason by now db0 db dead go s =
    elim (commit_transition-CommitOutcome id m to reason by now db) [
      | inl e ↦ rw e (λ j n n' q d h. dead n'.status (s j n n' q d h))
      | inr (t, _, _, _, _, rows) ↦ λ j n n' q d h.
          let (k, r, c) = rows j n' h in
          moved_status k.status n'.status (s j n k q d r)
            (elim c [ inl (_, a, b) ↦ inl (a, b) | inr (_, b) ↦ inr b ])
    ]
  where
    moved_status :
        (a b : NodeStatus) → is_dead a ≡ true → ((a ≡ m.status) × (b ≡ to)) ⊎ (b ≡ a) → P b
    moved_status a b d (inl (x, y)) = rw y (go (dead_of a m.status (sym x) d))
    moved_status a b d (inr y) = dead b (dead_of a b y d)

pub transition-Gated :
    (id : ℕ) (to : NodeStatus) (reason : Reason) (by now : ℕ) (db0 db : NodeDb)
    → StillDead db0 db
    → Gated db0 (transition id to reason by now db).1
transition-Gated id to reason by now db0 db s =
    transition_keeps (Gated db0) id to reason by now db
      (λ n _ v.
        commit_transition-Leads (λ s. (is_dead s ≡ true) ⊎ (s ≡ NodeStatus.returning)) id n to
          reason by now db0 db (λ _. inl) (is_valid_transition-is_dead n.status to v) s)
      (StillDead-Gated db0 db s)

-- Activation is not open to a dead node.
dead_not_active :
    (s : NodeStatus)
    → is_valid_transition s NodeStatus.active ≡ true
    → is_dead s ≡ true
    → is_dead NodeStatus.active ≡ true
unfolding is_valid_transition valid_transitions
dead_not_active s v d = ground arith

insert_active-StillDead :
    (m : Node) (now : ℕ) (db : NodeDb) → StillDead db (insert_active m now db).1
insert_active-StillDead m now db =
    insert_active_keeps (StillDead db) m now db (insert_node-StillDead m db) (λ db' k s v.
      commit_transition-Leads (λ s. is_dead s ≡ true) m.id k NodeStatus.active
        Reason.first_registration agent now db db' (λ _ d. d) (dead_not_active k.status v) s)

pub insert_active-Gated : (m : Node) (now : ℕ) (db : NodeDb) → Gated db (insert_active m now db).1
insert_active-Gated m now db =
    StillDead-Gated db (insert_active m now db).1 (insert_active-StillDead m now db)

pub insert_node-Gated : (m : Node) (db : NodeDb) → Gated db (insert_node m db).1
insert_node-Gated m db = StillDead-Gated db (insert_node m db).1 (insert_node-StillDead m db)

pub register-Gated :
    (given : NodeRegistration) (now : ℕ) (db : NodeDb) → Gated db (register given now db).1
unfolding get_by_id register
register-Gated given now db = elim (Option-cases (lookup given.node_id db.nodes)) [
  | inl e ↦ rw (e, register) (insert_active-Gated (new_node given now) now db)
  | inr (n, e) ↦
      let w =
        update_node-StillDead given.node_id (refresh given now) db db (λ _. refl)
          (StillDead-refl db) in
      rw (e, register)
        (elim (Bool-cases (is_dead n.status)) [
          | inl b ↦ rw b (
              transition-Gated given.node_id NodeStatus.returning Reason.re_registration agent now
                db (update_node given.node_id (refresh given now) db) w)
          | inr b ↦ rw b (StillDead-Gated db (update_node given.node_id (refresh given now) db) w)
        ])
]

pub update-Gated :
    (id : ℕ) (f : Node → Node) (db : NodeDb)
    → ((n : Node) → (f n).status ≡ n.status)
    → Gated db (update_node id f db)
update-Gated id f db keep =
    StillDead-Gated db (update_node id f db)
      (update_node-StillDead id f db db keep (StillDead-refl db))

pub update_found-Gated :
    (id : ℕ) (f : Node → Node) (db : NodeDb)
    → ((n : Node) → (f n).status ≡ n.status)
    → Gated db (update_found id f db).1
update_found-Gated id f db keep =
    update_found_keeps (Gated db) id f db (StillDead-Gated db db (StillDead-refl db))
      (update-Gated id f db keep)
