-- ===== src/Keys/Tests.antt =====
-- src/kvspace.c and src/durable_abi.c, keys split, joined and compared.
use kvspace_c.Prelude.{◌≡◌, ◌≢◌, refl, true, [], arith, codes}
use kvspace_c.Keys.{subtree_key, boundary}
use kvspace_c.Keys.Split.{NoSlash}

codes-NoSlash : NoSlash (codes "b")
codes-NoSlash = (omega arith, tt)

a_not_empty : codes "/a" ≢ []
a_not_empty e = cc

below_a : subtree_key (codes "/a") (codes "/a/b") ≡ true
unfolding subtree_key boundary
below_a = refl

below_b : subtree_key (codes "/a/b") (codes "/a/b/c") ≡ true
unfolding subtree_key boundary
below_b = refl
