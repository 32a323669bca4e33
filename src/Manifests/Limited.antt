-- ===== src/Manifests/Limited.antt =====
-- The limit on the manifests that are available.
use go_fula.Prelude.{
  ℕ, zero, suc, ◌+◌, true, false, Option, none, some, List, [], ◌∷◌, ltb, take, ◌≡◌, refl, sym, ap,
  ◌∙◌, arith, inl, inr, Option-cases,
}
use go_fula.Evm.Hex.{Text}
use go_fula.Pool.{ℤ, pos}
use go_fula.Manifests.{
  Manifest, LinkWithLimit, Chain, below_limit, prepend, collected, ask, collect, collect_all,
  handle_manifests_available,
}

unfoldable pub linked : ℤ → Option (List LinkWithLimit) → Option Text → Option (List LinkWithLimit)
unfolding prepend
linked available rest none = none
linked available rest (some c) = prepend (record { link = c; limit = available }) rest

-- The links of all manifests, if every URI is a cid.
unfoldable pub decode_links : Chain → List Manifest → Option (List LinkWithLimit)
unfolding linked
decode_links chain [] = some []
decode_links chain (m ∷ ms) =
    let rest = decode_links chain ms in linked m.replication_available rest (chain.decode_cid m.uri)

unfoldable pub first_links : ℕ → Option (List LinkWithLimit) → Option (List LinkWithLimit)
first_links n none = none
first_links n (some links) = some (take n links)

-- The links of the manifests up to the one behind the limit, cut at the limit.
unfoldable pub limited_links : Chain → ℕ → Option (List Manifest) → Option (List LinkWithLimit)
unfolding first_links decode_links
limited_links chain limit none = none
limited_links chain limit (some ms) = first_links limit (decode_links chain (take (suc limit) ms))

first_links-prepend :
    (n : ℕ) (x : LinkWithLimit) (o : Option (List LinkWithLimit))
    → first_links (suc n) (prepend x o) ≡ prepend x (first_links n o)
unfolding first_links prepend
first_links-prepend n x none = refl
first_links-prepend n x (some links) = refl

module _ (chain : Chain) (limit : ℕ) where
  collect-first_links :
      (left n : ℕ) (ms : List Manifest)
      → n + left ≡ limit
      → collect chain (pos limit) n ms ≡ first_links left (decode_links chain (take (suc left) ms))
  unfolding collect decode_links first_links below_limit prepend collected linked
  collect-first_links zero n [] e = refl
  collect-first_links (suc left) n [] e = refl
  collect-first_links zero n (m ∷ ms) e = elim (Option-cases (chain.decode_cid m.uri)) [
    | inl f ↦ rw f refl
    | inr (c, f) ↦ let full : ltb n limit ≡ false = ground arith in rw (f, full) refl
  ]
  collect-first_links (suc left) n (m ∷ ms) e = elim (Option-cases (chain.decode_cid m.uri)) [
    | inl f ↦ rw f refl
    | inr (c, f) ↦
        let room : ltb n limit ≡ true = ground arith in
        let x : LinkWithLimit = record { link = c; limit = m.replication_available } in
        rw (f, room)
          (ap (prepend x) (collect-first_links left (suc n) ms (omega arith))
            ∙ sym (first_links-prepend left x (decode_links chain (take (suc left) ms))))
  ]

  collect_all-limited_links :
      (o : Option (List Manifest)) → collect_all chain (pos limit) o ≡ limited_links chain limit o
  unfolding collect_all limited_links
  collect_all-limited_links none = refl
  collect_all-limited_links (some ms) = collect-first_links limit 0 ms (omega arith)

  -- The links that are available, for a limit that is not negative: if the chain answers with
  -- manifests, the links of the first of them, as many as the limit, as long as these and the one
  -- behind them have cids.
  pub handle_manifests_available-limited_links :
      (pool_id : Text)
      → handle_manifests_available chain pool_id (pos limit)
        ≡ limited_links chain limit
            (ask chain "fula-manifest-available" chain.parse_manifests [] (chain.atoi pool_id))
  unfolding handle_manifests_available
  handle_manifests_available-limited_links pool_id = collect_all-limited_links _
