-- ===== src/Tasks/Children.antt =====
-- `remove_from_children_list` of src/task.c against the list of children.
use cool_os.Prelude.{
  ℕ, ◌≤◌, ◌≡◌, ◌≢◌, refl, sym, subst, ◌∙◌, true, false, List, [], ◌∷◌, ◌++◌, arith, ◌==◌, length,
}
use cool_os.Heap.{ok}
use cool_os.Heap.Outcome.{ok-injective}
use cool_os.Sched.{Task, Sched, deref, put}
use cool_os.Sched.Ring.{deref-ok, deref-put_self, deref-put_ne}
use cool_os.Tasks.Family.{find_sibling, relink, unlinked, remove_from_children_list}
use cool_os.Tasks.Adjust.{Siblings, Outside, assigned}
use cool_os.Tasks.Siblings.{
  Unlike, Siblings-put_outside, Outside-left, Outside-right, Unlike-middle, find_sibling-before,
}

-- The list of children without one, whose link is cleared.
pub record Without (s : Sched) (parent c : ℕ) (l : List ℕ) : Type 0 where
  pub body : Task
  pub there : deref s.tasks parent ≡ ok body
  pub kids : Siblings s.tasks body.first_child l
  pub child : Task
  pub at_child : deref s.tasks c ≡ ok child
  pub alone : child.next_sibling ≡ 0

remove_steps :
    (n c parent : ℕ) (s s' : Sched) (tp tc : Task)
    → deref s.tasks parent ≡ ok tp
    → deref s.tasks c ≡ ok tc
    → relink n c parent tp tc.next_sibling s ≡ ok s'
    → deref s'.tasks c ≡ ok tc
    → remove_from_children_list n c parent s ≡ ok (assigned c unlinked tc s')
unfolding remove_from_children_list
remove_steps n c parent s s' tp tc there here removed still =
    let some_parent = (deref-ok s.tasks parent tp there).0 in
    let some_child = (deref-ok s.tasks c tc here).0 in
    rw (some_parent, some_child, there, here, removed, still) refl

module _ (n c parent : ℕ) (s : Sched) (tp tc : Task) (there : deref s.tasks parent ≡ ok tp)
    (here : deref s.tasks c ≡ ok tc) (other : parent ≢ c) where
  -- What is left to do once the links pass the child.
  finish :
      (s' : Sched) (tp' : Task) (l : List ℕ)
      → deref s'.tasks parent ≡ ok tp'
      → deref s'.tasks c ≡ ok tc
      → Siblings s'.tasks tp'.first_child l
      → Outside c l
      → Without (assigned c unlinked tc s') parent c l
  finish s' tp' l at still kids out = record {
    body = tp';
    there = deref-put_ne s'.tasks c (unlinked tc) parent (λ same. other (sym same)) ∙ at;
    kids = Siblings-put_outside s'.tasks c (unlinked tc) tp'.first_child l out kids;
    child = unlinked tc;
    at_child = deref-put_self s'.tasks c (unlinked tc) tc still;
    alone = refl;
  }

  relink_first :
      (tp.first_child == c) ≡ true
      → relink n c parent tp tc.next_sibling s
        ≡ ok (record s { tasks = put s.tasks parent (record tp { first_child = tc.next_sibling }) })
  unfolding relink
  relink_first first = rw (first, there) refl

  relink_later :
      (p : ℕ) (t : Task)
      → (tp.first_child == c) ≡ false
      → find_sibling n s c tp.first_child ≡ ok p
      → (p == 0) ≡ false
      → deref s.tasks p ≡ ok t
      → relink n c parent tp tc.next_sibling s
        ≡ ok (record s { tasks = put s.tasks p (record t { next_sibling = tc.next_sibling }) })
  unfolding relink
  relink_later p t not_first found real at = rw (not_first, found, real, at) refl

  removed_first :
      (b : List ℕ)
      → Siblings s.tasks tp.first_child (c ∷ b)
      → Outside parent (c ∷ b)
      → Outside c b
      → (s' : Sched) × (remove_from_children_list n c parent s ≡ ok s') × Without s' parent c b
  removed_first b kids out apart =
      let tp' = record tp { first_child = tc.next_sibling } in
      let s₁ = record s { tasks = put s.tasks parent tp' } in
      let first : (tp.first_child == c) ≡ true = ground (arith, kids.0) in
      let still = deref-put_ne s.tasks parent tp' c other ∙ here in
      let same = ok-injective kids.1.0 tc (sym kids.1.1 ∙ here) in
      let rest =
        Siblings-put_outside s.tasks parent tp' tc.next_sibling b out.1
          (subst (λ t. Siblings s.tasks t.next_sibling b) same kids.1.2) in
      (
        assigned c unlinked tc s₁,
        remove_steps n c parent s s₁ tp tc there here (relink_first first) still,
        finish s₁ tp' b (deref-put_self s.tasks parent tp' tp there) still rest apart,
      )

  removed_later :
      (y : ℕ) (a b : List ℕ)
      → Siblings s.tasks tp.first_child (y ∷ a ++ c ∷ b)
      → Outside parent (y ∷ a ++ c ∷ b)
      → Unlike (y ∷ a ++ c ∷ b)
      → length (y ∷ a) ≤ n
      → (s' : Sched) × (remove_from_children_list n c parent s ≡ ok s')
        × Without s' parent c (y ∷ a ++ b)
  removed_later y a b kids out apart enough =
      let without = Unlike-middle (y ∷ a) c b apart in
      let front = Outside-left c (y ∷ a) b without.0 in
      let r =
        find_sibling-before c tc b n s tp.first_child y a kids front.1 here without.1 enough in
      let t' = record r.body { next_sibling = tc.next_sibling } in
      let s₁ = record s { tasks = put s.tasks r.prev t' } in
      let not_first : (tp.first_child == c) ≡ false = ground (arith, kids.0, front.0) in
      let still = deref-put_ne s.tasks r.prev t' c (r.among c front) ∙ here in
      let at =
        deref-put_ne s.tasks r.prev t' parent
          (r.among parent (Outside-left parent (y ∷ a) (c ∷ b) out))
        ∙ there in
      (
        assigned c unlinked tc s₁,
        remove_steps n c parent s s₁ tp tc there here
            (relink_later r.prev r.body not_first r.found r.real r.there) still,
        finish s₁ tp (y ∷ a ++ b) at still r.left without.0,
      )

-- `remove_from_children_list` takes a child out of its parent's list, wherever it stands, and clears its
-- link, if the parent and the children are different tasks, with fuel for each child before it.
pub remove_from_children_list-Without :
    (n c parent : ℕ) (s : Sched) (tp tc : Task) (a b : List ℕ)
    → deref s.tasks parent ≡ ok tp
    → deref s.tasks c ≡ ok tc
    → Siblings s.tasks tp.first_child (a ++ c ∷ b)
    → Unlike (parent ∷ a ++ c ∷ b)
    → length a ≤ n
    → (s' : Sched) × (remove_from_children_list n c parent s ≡ ok s') × Without s' parent c (a ++ b)
remove_from_children_list-Without n c parent s tp tc [] b there here kids apart enough =
    removed_first n c parent s tp tc there here (λ same. apart.0.0 (sym same)) b kids apart.0
      apart.1.0
remove_from_children_list-Without n c parent s tp tc (y ∷ a) b there here kids apart enough =
    let child = Outside-right parent (y ∷ a) (c ∷ b) apart.0 in
    removed_later n c parent s tp tc there here (λ same. child.0 (sym same)) y a b kids apart.0
      apart.1 enough
