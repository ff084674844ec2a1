-- ===== src/Registrar/Cache/Laws.antt =====
-- The cache as a map from workspace and name to one hash and its graph.
use krop_controller.Base.{
  Text, text_eq, ◌==◌, if◌then◌else◌, ◌≡◌, ◌≢◌, refl, ◌&&◌, none, some, [], ◌∷◌, All, arith,
}
use krop_controller.Base.Dict.{lookup-insert, lookup-erase}
use krop_controller.Registrar.Cache.{GraphCache, bp_key, get_graph, put_graph, delete_graph}

-- No kcp workspace name holds a bar.
abbrev pub BarFree : Text → Type 0
BarFree = All (λ x. x ≢ b'|')

bp_key_inj : (a b n m : Text) → BarFree a → BarFree b → bp_key a n ≡ bp_key b m → (a ≡ b) × (n ≡ m)
bp_key_inj [] [] n m ha hb e = (refl, cc)
bp_key_inj [] (y ∷ b) n m ha hb e = absurd (hb.0 (cc))
bp_key_inj (x ∷ a) [] n m ha hb e = absurd (ha.0 (cc))
bp_key_inj (x ∷ a) (y ∷ b) n m ha hb e = let (p, q) = bp_key_inj a b n m ha.1 hb.1 (cc) in (cc, q)

same_key :
    (a b n m : Text) → BarFree a → BarFree b → (bp_key a n == bp_key b m) ≡ (a == b && n == m)
same_key a b n m ha hb = ground (arith, bp_key_inj a b n m ha hb)

bp_key_cancel : (w n m : Text) → bp_key w n ≡ bp_key w m → n ≡ m
bp_key_cancel [] n m e = cc
bp_key_cancel (x ∷ w) n m e = bp_key_cancel w n m (cc)

same_name : (w n m : Text) → (bp_key w n == bp_key w m) ≡ (n == m)
same_name w n m = ground (arith, bp_key_cancel w n m)

module _ {G : Type 0} where
  -- Within one workspace.
  pub get_graph-put_here :
      (w n n' h h' : Text) (g : G) (m : GraphCache G)
      → get_graph w n' h' (put_graph w n h g m)
        ≡ (if n == n' then (if h == h' then some g else none) else get_graph w n' h' m)
  unfolding get_graph put_graph
  get_graph-put_here w n n' h h' g m =
      ground (arith, lookup-insert (bp_key w n) (bp_key w n') ((h, g) ∷ []) m, same_name w n n')

  pub get_graph-delete_here :
      (w n n' h' : Text) (m : GraphCache G)
      → get_graph w n' h' (delete_graph w n m) ≡ (if n == n' then none else get_graph w n' h' m)
  unfolding get_graph delete_graph
  get_graph-delete_here w n n' h' m =
      ground (arith, lookup-erase (bp_key w n) (bp_key w n') m, same_name w n n')

  -- What is read back after a graph was put: that graph for its blueprint and its hash, nothing for any
  -- other hash of that blueprint, and for every other blueprint, in this workspace or in another, what
  -- was there before. After a deletion nothing is read for the blueprint, and all others are as before.
  pub get_graph-put_graph :
      (w w' n n' h h' : Text) (g : G) (m : GraphCache G)
      → BarFree w
      → BarFree w'
      → (get_graph w' n' h' (put_graph w n h g m) ≡ (
          if w == w' && n == n' then (if h == h' then some g else none) else get_graph w' n' h' m))
        × (get_graph w' n' h' (delete_graph w n m)
            ≡ (if w == w' && n == n' then none else get_graph w' n' h' m))
  unfolding get_graph put_graph delete_graph
  get_graph-put_graph w w' n n' h h' g m f f' = (
    ground
        (arith, lookup-insert (bp_key w n) (bp_key w' n') ((h, g) ∷ []) m, same_key w w' n n' f f'),
    ground (arith, lookup-erase (bp_key w n) (bp_key w' n') m, same_key w w' n n' f f'),
  )

  pub get_graph-put_self :
      (w n h : Text) (g : G) (m : GraphCache G) → get_graph w n h (put_graph w n h g m) ≡ some g
  unfolding get_graph put_graph
  get_graph-put_self w n h g m =
      ground (arith, lookup-insert (bp_key w n) (bp_key w n) ((h, g) ∷ []) m)
