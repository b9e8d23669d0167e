-- ===== src/Cxds/Drive/Refines.antt =====
-- data/cxds/memory.go and data/cxds/drive.go: the methods, one by one and in sequences.
use cxo.Prelude.{
  ℕ, zero, suc, ◌≡◌, ◌⊎◌, refl, ap, sym, ◌∙◌, [], ◌∷◌, none, some, Error, ok, err, arith,
  if◌then◌else◌, is_empty, length, Option-cases, inl, inr,
}
use cxo.Prelude.Int.{ℤ, pos, negsuc}
use cxo.Bolt.{Bolt, IsReliable}
use cxo.GoMap.{lookup-insert}
use cxo.Cxds.{Val, next_rc}
use cxo.Cxds.Memory.{MemoryObject, MemoryCxds}
use cxo.Cxds.Memory
use cxo.Cxds.Memory.Stat.{incr-count}
use cxo.Cxds.Drive.{DriveCxds, decode}
use cxo.Cxds.Drive
use cxo.Cxds.Drive.Agree.{
  Agrees, decode-with_refs_count, with_refs_count-nonempty, incr-Agrees, drive_store_count,
}
use mathlib.Core.List.{lookup}

module _ {K : Type 0} (o : Bolt K) (r : IsReliable o) where
  update_ok :
      {A : Type 0} (body : Drive.Action o A) (d d' : DriveCxds o) (a : A)
      → body d ≡ (ok a, d')
      → Drive.update o body d ≡ (ok a, d')
  unfolding Drive.update
  update_ok body d d' a e = rw (e, Drive.update, r.commits)

  update_err :
      {A : Type 0} (body : Drive.Action o A) (d : DriveCxds o) (x : Error)
      → body d ≡ (err x, d)
      → Drive.update o body d ≡ (err x, d)
  unfolding Drive.update
  update_err body d x e = rw (e, Drive.update)

  in_tx_ok :
      {A : Type 0} (inc : ℤ) (body : Drive.Action o A) (d d' : DriveCxds o) (a : A)
      → body d ≡ (ok a, d')
      → (inc ≡ pos 0 → d' ≡ d)
      → Drive.in_tx o inc body d ≡ (ok a, d')
  unfolding Drive.in_tx Drive.view
  in_tx_ok (pos zero) body d d' a e z =
      rw e (ap (λ (x : DriveCxds o). (ok a, record d' { objs = x.objs })) (sym (z refl)))
  in_tx_ok (pos (suc n)) body d d' a e z = update_ok body d d' a e
  in_tx_ok (negsuc n) body d d' a e z = update_ok body d d' a e

  in_tx_err :
      {A : Type 0} (inc : ℤ) (body : Drive.Action o A) (d : DriveCxds o) (x : Error)
      → body d ≡ (err x, d)
      → Drive.in_tx o inc body d ≡ (err x, d)
  unfolding Drive.in_tx Drive.view
  in_tx_err (pos zero) body d x e = rw e
  in_tx_err (pos (suc n)) body d x e = update_err body d x e
  in_tx_err (negsuc n) body d x e = update_err body d x e

  -- On a stored object the slice expressions succeed.
  on_object-stored :
      {A : Type 0} (key : K) (mo : MemoryObject) (f : ℕ → Val → Drive.Action o A) (m : MemoryCxds K)
      (d : DriveCxds o) (e : Drive.Action o A)
      → Agrees o m d
      → lookup o.dec key m.kvs ≡ some mo
      → (if is_empty (o.get d.objs key) then e d else Drive.on_object o (o.get d.objs key) f d)
        ≡ f mo.rc mo.val d
  on_object-stored key mo f m d e a h =
      rw (a.objects key, h, with_refs_count-nonempty)
        (rw (decode-with_refs_count mo.rc mo.val (a.bounded key mo h), Drive.on_object))

  -- Where BoltDB succeeds and the two agree, `Get` gives the same answer in both, and leaves them in
  -- agreement.
  pub get-Agrees :
      (key : K) (inc : ℤ) (m : MemoryCxds K) (d : DriveCxds o)
      → Agrees o m d
      → (d' : DriveCxds o) × (Drive.get o key inc d ≡ ((Memory.get o.dec key inc m).0, d'))
        × Agrees o (Memory.get o.dec key inc m).1 d'
  unfolding Drive.get Memory.get
  get-Agrees key inc m d a = elim (Option-cases (lookup o.dec key m.kvs)) [
    | inl e ↦ rw (e, Memory.get) (d, in_tx_err inc _ d Error.not_found (rw (a.objects key, e)), a)
    | inr (mo, e) ↦
        let (d', de, a', z) = incr-Agrees o r key mo inc m d e a in
        rw (e, Memory.get, incr-count)
          (
            d',
            in_tx_ok inc _ d d' (mo.val, next_rc mo.rc inc)
                (on_object-stored key mo
                    (λ rc val d''. Drive.beside o val (Drive.incr o key val rc inc d'')) m d
                    (λ x. (err Error.not_found, x)) a e
                  ∙ rw de)
                z,
            a',
          )
  ]

  -- Where BoltDB succeeds and the two agree, `Inc` gives the same answer in both, and leaves them in
  -- agreement.
  pub inc_rc-Agrees :
      (key : K) (inc : ℤ) (m : MemoryCxds K) (d : DriveCxds o)
      → Agrees o m d
      → (d' : DriveCxds o) × (Drive.inc_rc o key inc d ≡ ((Memory.inc_rc o.dec key inc m).0, d'))
        × Agrees o (Memory.inc_rc o.dec key inc m).1 d'
  unfolding Drive.inc_rc Memory.inc_rc
  inc_rc-Agrees key inc m d a = elim (Option-cases (lookup o.dec key m.kvs)) [
    | inl e ↦
        rw (e, Memory.inc_rc) (d, in_tx_err inc _ d Error.not_found (rw (a.objects key, e)), a)
    | inr (mo, e) ↦
        let (d', de, a', z) = incr-Agrees o r key mo inc m d e a in
        rw (e, Memory.inc_rc, incr-count)
          (
            d',
            in_tx_ok inc _ d d' (next_rc mo.rc inc)
                (on_object-stored key mo
                    (λ rc val d''.
                      Drive.forget_error o (next_rc rc inc) (Drive.incr o key val rc inc d''))
                    m d (λ x. (err Error.not_found, x)) a e
                  ∙ rw de)
                z,
            a',
          )
  ]

  -- `Set` of a present object by any `inc`, and of a new one by one.
  set_old-Agrees :
      (key : K) (val : Val) (n : ℕ) (m : MemoryCxds K) (d : DriveCxds o) (mo : MemoryObject)
      → lookup o.dec key m.kvs ≡ some mo
      → Agrees o m d
      → (d' : DriveCxds o) × (Drive.set_value o key val (pos (suc n)) d
          ≡ ((Memory.set_value o.dec key val (suc n) m).0, d'))
        × Agrees o (Memory.set_value o.dec key val (suc n) m).1 d'
  unfolding Drive.set_value Memory.set_value next_rc
  set_old-Agrees key val n m d mo e a =
      let (d', de, a', z) = incr-Agrees o r key mo (pos (suc n)) m d e a in
      rw (e, Memory.set_value, incr-count)
        (
          d',
          update_ok (Drive.set_body o key val (pos (suc n))) d d' (next_rc mo.rc (pos (suc n))) (
              on_object-stored key mo (λ rc old. Drive.incr o key old rc (pos (suc n))) m d
                (λ x.
                  Drive.incr o key val 0 (pos 1)
                    (record x { counters = Drive.add_all (length val) x.counters }))
                a e
              ∙ rw de),
          a',
        )

  pub set_new-Agrees :
      (key : K) (val : Val) (inc : ℤ) (m : MemoryCxds K) (d : DriveCxds o)
      → lookup o.dec key m.kvs ≡ none
      → Agrees o m d
      → (d' : DriveCxds o) × (Drive.set_value o key val inc d ≡ (ok 1, d'))
        × Agrees o (Memory.create o.dec key val 1 m) d'
  unfolding Drive.set_value Memory.create Drive.incr next_rc Drive.av
  set_new-Agrees key val inc m d e a =
      let (b, de, gets) =
        drive_store_count o r key val 0 1
          (record d { counters = Drive.add_all (length val) d.counters }) in
      (
        record {
          objs = b;
          counters = Drive.av 0 1 (length val) (Drive.add_all (length val) d.counters);
        },
        update_ok (Drive.set_body o key val inc) d _ 1 (rw (a.objects key, e) de),
        record {
          objects = λ j. rw lookup-insert (gets j ∙ ground (arith, a.objects j));
          bounded = λ j mo. rw lookup-insert (λ h. ground (arith, a.bounded j mo));
          counters = unfold Drive.av Drive.add_all in rw a.counters;
        },
      )

  set_by_one :
      (key : K) (val : Val) (m : MemoryCxds K) (d : DriveCxds o)
      → lookup o.dec key m.kvs ≡ none
      → Agrees o m d
      → (d' : DriveCxds o) × (Drive.set_value o key val (pos 1) d
          ≡ ((Memory.set_value o.dec key val 1 m).0, d'))
        × Agrees o (Memory.set_value o.dec key val 1 m).1 d'
  unfolding Memory.set_value
  set_by_one key val m d e a = rw (e, Memory.set_value) (set_new-Agrees key val (pos 1) m d e a)

  -- Where BoltDB succeeds and the two agree, `Set` gives the same answer in both, and leaves them in
  -- agreement, if it is by one, or if the object is there already.
  pub set-Agrees :
      (key : K) (val : Val) (inc : ℤ) (m : MemoryCxds K) (d : DriveCxds o)
      → (inc ≡ pos 1) ⊎ ((mo : MemoryObject) × (lookup o.dec key m.kvs ≡ some mo))
      → Agrees o m d
      → (d' : DriveCxds o) × (Drive.set o key val inc d ≡ ((Memory.set o.dec key val inc m).0, d'))
        × Agrees o (Memory.set o.dec key val inc m).1 d'
  unfolding Drive.set Memory.set
  set-Agrees key [] (pos (suc n)) m d c a = (d, refl, a)
  set-Agrees key (x ∷ val) (pos (suc n)) m d (inr (mo, e)) a =
      set_old-Agrees key (x ∷ val) n m d mo e a
  set-Agrees key (x ∷ val) (pos (suc n)) m d (inl one) a =
      elim (Option-cases (lookup o.dec key m.kvs)) [
        | inr (mo, e) ↦ set_old-Agrees key (x ∷ val) n m d mo e a
        | inl e ↦ let z : n ≡ 0 = ground arith in rw z (set_by_one key (x ∷ val) m d e a)
      ]
  set-Agrees key val (pos zero) m d c a = (d, refl, a)
  set-Agrees key val (negsuc n) m d c a = (d, refl, a)
