-- ===== src/Cache/Lost.antt =====
-- skyobject/cache.go: `Inc` of a key that is in the CXDS and not in the cache.
use cxo.Prelude.{returns, ℕ, ◌≡◌, refl, ◌∙◌, false, none, some, ok, arith}
use cxo.Prelude.Int.{ℤ, pos}
use cxo.Cxds.{next_rc}
use cxo.Cxds.Memory.{MemoryObject}
use cxo.CxdsApi.{CxdsApi, IsCxds, changed}
use cxo.Cache.Item.{Limits, Cache}
use cxo.Cache.Access.{inc_rc, fetch}
use mathlib.Core.List.{lookup}

module _ {K : Type 0} {a : CxdsApi K} (l : IsCxds a) {C : Type 0} (c0 : Limits) (now : ℕ) where
  -- Where the cache is disabled and has no item of the key, `Inc` of an object of the CXDS changes
  -- its count there, and returns zero and no error whatever the count is.
  pub inc_rc_lost :
      (key : K) (inc : ℤ) (mo : MemoryObject) (c : Cache a C)
      → c0.enable ≡ false
      → lookup a.dec key c.is ≡ none
      → l.view c.db key ≡ some mo
      → ((inc_rc c0 now key inc c).0 ≡ returns (pos 0) none)
        × (l.view (inc_rc c0 now key inc c).1.db key ≡ changed inc (some mo))
  unfolding inc_rc fetch
  inc_rc_lost key inc mo c off e h =
      let q : (a.inc key inc c.db).0 ≡ ok (next_rc mo.rc inc) = l.inc_lem key inc c.db ∙ rw h in
      rw (e, inc_rc, off, fetch, q) (refl, l.view-inc key key inc c.db ∙ rw h (ground arith))
