-- ===== src/Network/Registry/Status.antt =====
-- A node is active when the last call about it registered it.
use project_stark.Prelude.{
  ℕ, ◌≡◌, refl, sym, ◌∙◌, Bool, true, false, Option, none, some, List, [], ◌∷◌, Option-cases, inl,
  inr,
}
use project_stark.Prelude.Dict.{find, find-assign_self, find-assign_ne}
use project_stark.Network.Registry.{
  active, inactive, Node, NodeRegistry, init, register, unregister, is_active, Call, registers,
  unregisters, step, run,
}

-- What the last call about a node says of it, and `before` without one.
pub last_status : {N P M : Type 0} → Discrete N → N → Bool → List (Call N P M) → Bool
last_status dec node_id before [] = before
last_status dec node_id before (registers now other public_key metadata ∷ calls) =
    last_status dec node_id (elim (dec other node_id) [ yes p ↦ true | no p ↦ before ]) calls
last_status dec node_id before (unregisters other ∷ calls) =
    last_status dec node_id (elim (dec other node_id) [ yes p ↦ false | no p ↦ before ]) calls

module _ {N P M : Type 0} (dec : Discrete N) where
  -- A node is active after a call about it as that call says, and after another call as before.
  is_active-register :
      (now : ℕ) (other node_id : N) (public_key : Option P) (metadata : M) (r : NodeRegistry N P M)
      → is_active dec node_id (register dec now other public_key metadata r)
        ≡ elim (dec other node_id) [ yes p ↦ true | no p ↦ is_active dec node_id r ]
  unfolding is_active register
  is_active-register now other node_id public_key metadata r = by_node (dec other node_id)
    where
      info : Node P M
      info = record {
        registered_at = now;
        public_key = public_key;
        metadata = metadata;
        status = active;
      }

      by_node :
          (d : Dec (other ≡ node_id))
          → is_active dec node_id (register dec now other public_key metadata r)
            ≡ elim d [ yes p ↦ true | no p ↦ is_active dec node_id r ]
      by_node (yes p) = rw (← p, is_active, find-assign_self dec other info r.nodes) refl
      by_node (no p) =
          rw (is_active, find-assign_ne dec other node_id info r.nodes (λ e. p (sym e))) refl

  is_active-unregister :
      (other node_id : N) (r : NodeRegistry N P M)
      → is_active dec node_id (unregister dec other r)
        ≡ elim (dec other node_id) [ yes p ↦ false | no p ↦ is_active dec node_id r ]
  unfolding is_active unregister
  is_active-unregister other node_id r = elim (Option-cases (find dec other r.nodes)) [
    | inl absent ↦ unknown absent (dec other node_id)
    | inr (info, there) ↦ known info there (dec other node_id)
  ]
    where
      unknown :
          find dec other r.nodes ≡ none
          → (d : Dec (other ≡ node_id))
          → is_active dec node_id (unregister dec other r)
            ≡ elim d [ yes p ↦ false | no p ↦ is_active dec node_id r ]
      unknown absent (yes p) = rw (← p, unregister, absent) (rw (is_active, absent) refl)
      unknown absent (no p) = rw (unregister, absent) refl

      known :
          (info : Node P M)
          → find dec other r.nodes ≡ some info
          → (d : Dec (other ≡ node_id))
          → is_active dec node_id (unregister dec other r)
            ≡ elim d [ yes p ↦ false | no p ↦ is_active dec node_id r ]
      known info there (yes p) =
          rw
            (
              ← p,
              unregister,
              there,
              is_active,
              find-assign_self dec other (record info { status = inactive }) r.nodes,
            )
            refl
      known info there (no p) =
          rw
            (
              unregister,
              there,
              is_active,
              find-assign_ne dec other node_id (record info { status = inactive }) r.nodes
                  (λ e. p (sym e)),
            )
            refl

  run-is_active :
      (node_id : N) (r : NodeRegistry N P M) (calls : List (Call N P M))
      → is_active dec node_id (run dec r calls)
        ≡ last_status dec node_id (is_active dec node_id r) calls
  unfolding run step last_status
  run-is_active node_id r [] = refl
  run-is_active node_id r (registers now other public_key metadata ∷ calls) =
      run-is_active node_id (register dec now other public_key metadata r) calls
      ∙ rw (is_active-register now other node_id public_key metadata r) refl
  run-is_active node_id r (unregisters other ∷ calls) =
      run-is_active node_id (unregister dec other r) calls
      ∙ rw (is_active-unregister other node_id r) refl

  -- After any calls on a new registry a node is active exactly when the last call about it
  -- registered it.
  pub run-init-is_active :
      (node_id : N) (calls : List (Call N P M))
      → is_active dec node_id (run dec init calls) ≡ last_status dec node_id false calls
  unfolding init is_active find
  run-init-is_active node_id calls = run-is_active node_id init calls
