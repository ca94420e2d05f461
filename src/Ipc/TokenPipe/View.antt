-- ===== src/Ipc/TokenPipe/View.antt =====
-- The borrowed windows of kernel/src/tokpipe.rs.
use karte_os.Base.{
  ℕ, ◌-◌, ◌%◌, ◌≤◌, min, ◌++◌, ◌==◌, take, drop, ◌≡◌, refl, ap, sym, ◌∙◌, arith, Bool-cases, inl,
  inr,
}
use mathlib.Core.List.{append-nil}
use karte_os.Base.Ring.{take-window-min, window_slice, window_two}
use karte_os.Ipc.TokenPipe.{TokenPipe, blank, len, view}
use karte_os.Ipc.TokenPipe.Ring.{contents, IsValid, len_lem}

-- The two windows together are the oldest tokens, as many as were asked for.
pub view_lem :
    (p : TokenPipe) (max : ℕ)
    → IsValid p
    → ((view p max).0 ++ (view p max).1 ≡ take max (contents p))
      × ((view p max).2 ≡ min (len p) max)
unfolding view
view_lem p max v =
    let t = p.tail % 256 in
    let avail = min (len p) max in
    let few : avail ≤ 256 = omega (arith, len_lem p v, v.room) in
    elim (Bool-cases (avail == 0)) [
      | inl e ↦
          let z : avail ≡ 0 = ground arith in
          rw (e, take-window-min 256 blank p.ring t (len p) max, z) (refl, refl)
      | inr e ↦ elim (Bool-cases (min (256 - t) avail == avail)) [
        | inl f ↦
            let m : min (256 - t) avail ≡ avail = ground arith in
            rw (e, f, take-window-min 256 blank p.ring t (len p) max)
              (
                append-nil _
                    ∙ ap (λ n. take n (drop t p.ring)) m
                    ∙ sym (window_slice 256 blank p.ring t avail v.storage (omega arith)),
                refl,
              )
        | inr f ↦
            let m : min (256 - t) avail ≡ 256 - t = ground arith in
            rw (e, f, take-window-min 256 blank p.ring t (len p) max)
              (
                ap (λ n. drop t p.ring ++ take (avail - n) p.ring) m
                    ∙ sym (
                        window_two 256 blank p.ring t avail v.storage (omega arith) (omega arith)
                          few),
                refl,
              )
      ]
    ]
