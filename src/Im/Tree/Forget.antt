-- ===== src/Im/Tree/Forget.antt =====
-- bPlusTree.insert at an inner node: what it answers to its caller.
use wisdb.Im.Store.{returned, ok, pure}
use wisdb.Im.Store.{Store}
use wisdb.Im.Tree.{insert, is_leaf, insert_and_split, search_next, insert_key, root_uuid}
use wisdb.Base.{ℕ, ◌≡◌, some, false, suc, refl, zero, Bool-cases}
use wisdb.Base.{◌==◌, inl, true, inr, arith}

answer : {S : Type 0} (st st' : S) (a b : ℕ × ℕ) → pure a st ≡ some (ok b, st') → b.0 ≡ a.0
answer st st' a b h = cc h

module _ {S : Type 0} (dm : Store S) where
  -- insert at an inner node reports no new node, also where the node was split.
  pub insert-forgets :
      (fuel node_uuid uuid key son new_key : ℕ) (st st' : S)
      → is_leaf dm node_uuid st ≡ some (ok false, st)
      → insert dm fuel node_uuid uuid key st ≡ some (ok (son, new_key), st')
      → son ≡ 0
  unfolding insert
  insert-forgets zero node_uuid uuid key son new_key st st' inner h = absurd (cc h)
  insert-forgets (suc fuel) node_uuid uuid key son new_key st st' inner h =
      let (next, st1, searched, h1) =
        returned _ (search_next dm fuel node_uuid key st) (son, new_key) st' (rw inner at h) in
      let ((down, down_key), st2, inserted, h2) =
        returned _ (insert dm fuel next uuid key st1) (son, new_key) st' h1 in
      elim (Bool-cases (down == 0)) [
        | inl k ↦ answer st2 st' (0, 0) (son, new_key) (rw k at h2)
        | inr k ↦
            let (lost, st3, split_up, h3) =
              returned _ (insert_and_split dm fuel node_uuid down down_key st2) (son, new_key) st'
                (rw k at h2) in
            answer st3 st' (0, 0) (son, new_key) h3
      ]

  -- Where insert returns from a root that is an inner node, Insert returns in the state that insert
  -- left: it does not replace the root, also where insert split it.
  pub insert_key-forgets :
      (fuel boot root uuid key son new_key : ℕ) (st st' : S)
      → root_uuid dm boot st ≡ some (ok root, st)
      → is_leaf dm root st ≡ some (ok false, st)
      → insert dm fuel root uuid key st ≡ some (ok (son, new_key), st')
      → insert_key dm fuel boot key uuid st ≡ some (ok tt, st')
  unfolding insert_key
  insert_key-forgets fuel boot root uuid key son new_key st st' root_read inner done =
      let forgot : son ≡ 0 = insert-forgets fuel root uuid key son new_key st st' inner done in
      let nothing : (son == 0) ≡ true = ground (arith, forgot) in rw (root_read, done, nothing) refl
