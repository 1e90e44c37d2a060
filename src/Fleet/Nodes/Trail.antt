-- ===== src/Fleet/Nodes/Trail.antt =====
-- The log of transitions against a node's status (src/fleet/drizzle-node-repository.ts).
use platform_core.Base.{
  ⊤, ℕ, ◌≡◌, refl, sym, ◌∙◌, ap, ◌⊎◌, inl, inr, true, false, Option, none, some, List, [], ◌∷◌,
  filter, ◌==◌, ==_iff, nat_eq, Bool-cases, Option-cases,
}
use platform_core.Base.Dict.{
  lookup, update, insert_new, lookup-update-eq-some, lookup-insert_new-eq-some,
}
use platform_core.Fleet.NodeStatus.{NodeStatus, status_eq, status_eq_iff, is_valid_transition}
use platform_core.Fleet.Nodes.Types.{
  Node, Reason, NodeTransition, NodeDb, NodeError, NodeResult, ok, err,
}
use platform_core.Fleet.Nodes.Repository.{
  update_node, insert_node, moved, is_cancelled, commit_transition,
}

-- The transitions of a node, the newest first.
abbrev pub log_of : ℕ → List NodeTransition → List NodeTransition
log_of id ts = filter (λ (t : NodeTransition). t.node_id == id) ts

-- A log that leads to a status by transitions of the graph, from `provisioning`, where the node's row
-- was inserted.
abbrev pub IsTrail : List NodeTransition → NodeStatus → Type 0
IsTrail [] s = s ≡ NodeStatus.provisioning
IsTrail (t ∷ ts) s =
    (s ≡ NodeStatus.provisioning)
    ⊎ ((t.to_status ≡ s)
        × (is_valid_transition t.from_status t.to_status ≡ true)
        × IsTrail ts t.from_status)

abbrev pub IsLogged : NodeDb → Type 0
IsLogged db =
    (id : ℕ) (n : Node) → lookup id db.nodes ≡ some n → IsTrail (log_of id db.transitions) n.status

provisioning-IsTrail : (ts : List NodeTransition) → IsTrail ts NodeStatus.provisioning
provisioning-IsTrail [] = refl
provisioning-IsTrail (t ∷ ts) = inl refl

transport-IsTrail :
    (ts : List NodeTransition) (a b : NodeStatus) → b ≡ a → IsTrail ts a → IsTrail ts b
transport-IsTrail ts a b e h = rw e h

-- A node that an update leaves had a row, and has its status still.
pub update_node-status :
    (id : ℕ) (f : Node → Node) (db : NodeDb) (j : ℕ) {n' : Node}
    → ((n : Node) → (f n).status ≡ n.status)
    → lookup j (update_node id f db).nodes ≡ some n'
    → (n : Node) × (lookup j db.nodes ≡ some n) × (n'.status ≡ n.status)
unfolding update_node
update_node-status id f db j keep h =
    let (n, e, c) = lookup-update-eq-some id j f db.nodes h in
    (
      n,
      e,
      elim c [
        | inl (_, q) ↦ ap (λ (m : Node). m.status) q
        | inr (_, q) ↦ ap (λ (m : Node). m.status) q ∙ keep n
      ],
    )

pub update_node-IsLogged :
    (id : ℕ) (f : Node → Node) (db : NodeDb)
    → ((n : Node) → (f n).status ≡ n.status)
    → IsLogged db
    → IsLogged (update_node id f db)
unfolding update_node
update_node-IsLogged id f db keep v j n' h =
    let (n, e, s) = update_node-status id f db j keep h in
    transport-IsTrail (log_of j db.transitions) n.status n'.status s (v j n e)

-- What an insert leaves.
pub insert_node-cases :
    (n : Node) (db : NodeDb) (j : ℕ) {n' : Node}
    → lookup j (insert_node n db).1.nodes ≡ some n'
    → (lookup j db.nodes ≡ some n') ⊎ ((lookup j db.nodes ≡ none) × (n' ≡ n))
unfolding insert_node
insert_node-cases n db j {n'} = split (lookup n.id db.nodes) refl
  where
    split :
        (o : Option Node)
        → lookup n.id db.nodes ≡ o
        → lookup j
            (elim o as (λ _. NodeResult ⊤ × NodeDb) [
              | some _ ↦ (err (NodeError.unique_violation n.id), db)
              | none ↦ (ok tt, record db { nodes = insert_new n.id n db.nodes })
            ]).1.nodes
          ≡ some n'
        → (lookup j db.nodes ≡ some n') ⊎ ((lookup j db.nodes ≡ none) × (n' ≡ n))
    split (some m) e h = inl h
    split none e h = elim (lookup-insert_new-eq-some n.id j n db.nodes e h) [
      | inl (b, q) ↦ inr (ap (λ k. lookup k db.nodes) (sym ((==_iff n.id j).0 b)) ∙ e, q)
      | inr q ↦ inl q
    ]

insert_node-transitions :
    (n : Node) (db : NodeDb) → (insert_node n db).1.transitions ≡ db.transitions
unfolding insert_node
insert_node-transitions n db = elim (Option-cases (lookup n.id db.nodes)) [
  | inl e ↦ rw (e, insert_node) refl
  | inr (_, e) ↦ rw (e, insert_node) refl
]

pub insert_node-IsLogged :
    (n : Node) (db : NodeDb)
    → n.status ≡ NodeStatus.provisioning
    → IsLogged db
    → IsLogged (insert_node n db).1
insert_node-IsLogged n db s v j n' h =
    rw (insert_node-transitions n db) (elim (insert_node-cases n db j h) [
      | inl q ↦ v j n' q
      | inr (_, q) ↦
          transport-IsTrail (log_of j db.transitions) NodeStatus.provisioning n'.status
            (ap (λ (m : Node). m.status) q ∙ s) (provisioning-IsTrail (log_of j db.transitions))
    ])

-- What the transaction of a transition leaves: nothing changes, or the node had the status that was
-- read, has the new one, and the log has grown by this transition.
abbrev pub CommitOutcome : ℕ → NodeStatus → NodeStatus → NodeDb → NodeDb → Type 0
CommitOutcome id from to db db' =
    (db' ≡ db)
    ⊎ ((t : NodeTransition) × (t.node_id ≡ id)
        × (t.from_status ≡ from)
        × (t.to_status ≡ to)
        × (db'.transitions ≡ t ∷ db.transitions)
        × ((j : ℕ) (n' : Node)
            → lookup j db'.nodes ≡ some n'
            → (n : Node) × (lookup j db.nodes ≡ some n)
              × (((id ≡ j) × (n.status ≡ from) × (n'.status ≡ to))
                  ⊎ (((id == j) ≡ false) × (n'.status ≡ n.status)))))

moved-status : (from to : NodeStatus) (now : ℕ) (n : Node) → (moved from to now n).status ≡ to
moved-status from to now n = elim (Bool-cases (is_cancelled from to)) [
  | inl b ↦ rw b refl
  | inr b ↦ rw b refl
]

same_row :
    (id j : ℕ) (db : NodeDb) (m k : Node)
    → lookup id db.nodes ≡ some m
    → id ≡ j
    → lookup j db.nodes ≡ some k
    → k.status ≡ m.status
same_row id j db m k e i q = cc

pub commit_transition-CommitOutcome :
    (id : ℕ) (n : Node) (to : NodeStatus) (reason : Reason) (by now : ℕ) (db : NodeDb)
    → CommitOutcome id n.status to db (commit_transition id n to reason by now db).1
unfolding commit_transition
commit_transition-CommitOutcome id n to reason by now db =
    elim (Option-cases (lookup id db.nodes)) [
      | inl e ↦ rw (e, commit_transition) (inl refl)
      | inr (m, e) ↦
          rw (e, commit_transition)
            (elim (Bool-cases (status_eq m.status n.status)) [
              | inr b ↦ rw b (inl refl)
              | inl b ↦ rw b (
                  inr (_, refl, refl, refl, refl, rows m e ((status_eq_iff m.status n.status).0 b)))
            ])
    ]
  where
    rows :
        (m : Node)
        → lookup id db.nodes ≡ some m
        → m.status ≡ n.status
        → (j : ℕ) (n' : Node) → lookup j (update id (moved n.status to now) db.nodes) ≡ some n'
        → (k : Node) × (lookup j db.nodes ≡ some k)
          × (((id ≡ j) × (k.status ≡ n.status) × (n'.status ≡ to))
              ⊎ (((id == j) ≡ false) × (n'.status ≡ k.status)))
    rows m e s j n' h =
        let (k, q, c) = lookup-update-eq-some id j (moved n.status to now) db.nodes h in
        (
          k,
          q,
          elim c [
            | inl (b, r) ↦ inr (b, ap (λ (x : Node). x.status) r)
            | inr (b, r) ↦
                let i = (==_iff id j).0 b in
                inl (
                  i,
                  same_row id j db m k e i q ∙ s,
                  ap (λ (x : Node). x.status) r ∙ moved-status n.status to now k,
                )
          ],
        )

-- The log and the statuses after one transition.
grow :
    (id j : ℕ) (from to : NodeStatus) (t : NodeTransition) (ts : List NodeTransition)
    (a b : NodeStatus)
    → t.node_id ≡ id
    → t.from_status ≡ from
    → t.to_status ≡ to
    → is_valid_transition from to ≡ true
    → ((id ≡ j) × (a ≡ from) × (b ≡ to)) ⊎ (((id == j) ≡ false) × (b ≡ a))
    → IsTrail (log_of j ts) a
    → IsTrail (log_of j (t ∷ ts)) b
grow id j from to t ts a b ei ef et valid (inl (i, af, bt)) h =
    rw ((==_iff t.node_id j).1 (ei ∙ i)) (
      inr (
        et ∙ sym bt,
        ap (λ (x : NodeStatus). is_valid_transition x t.to_status) ef
            ∙ ap (is_valid_transition from) et
            ∙ valid,
        transport-IsTrail (log_of j ts) a t.from_status (ef ∙ sym af) h,
      ))
grow id j from to t ts a b ei ef et valid (inr (i, ba)) h =
    rw (ap (λ (x : ℕ). x == j) ei ∙ i) (transport-IsTrail (log_of j ts) a b ba h)

pub commit_transition-IsLogged :
    (id : ℕ) (n : Node) (to : NodeStatus) (reason : Reason) (by now : ℕ) (db : NodeDb)
    → is_valid_transition n.status to ≡ true
    → IsLogged db
    → IsLogged (commit_transition id n to reason by now db).1
commit_transition-IsLogged id n to reason by now db valid v =
    elim (commit_transition-CommitOutcome id n to reason by now db) [
      | inl e ↦ rw e v
      | inr (t, ei, ef, et, el, rows) ↦ λ j n' h.
          let (k, q, c) = rows j n' h in
          rw el
            (grow id j n.status to t db.transitions k.status n'.status ei ef et valid c (v j k q))
    ]
