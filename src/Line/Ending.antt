-- ===== src/Line/Ending.antt =====
-- Every reception ends, whatever the line does.
use opentherm_thermostat_fir.Prelude.{
  ℕ, zero, suc, ◌-◌, ◌*◌, ◌≤◌, ◌<◌, ◌≡◌, ◌⊎◌, inl, inr, Bool, List, [], ◌∷◌, length, ◌++◌, arith,
  refl,
}
use opentherm_thermostat_fir.Line.Decode.{
  Decoder, mid_only, any, idle, busy, done, error, fail, record_bit, take_middle, push_idle,
  transition, push_busy, push, sample, reset,
}

-- Samples that a frame in progress can still take.
unfoldable pub rank : Decoder → ℕ
rank d = elim d.phase [
  | any ↦ 26 * (34 - d.bits) - d.since
  | mid_only ↦ 26 * (34 - d.bits) - 13 - d.since
]

-- What a frame in progress keeps.
abbrev pub InProgress : Decoder → Type 0
InProgress d = (d.since ≤ 12) × (d.bits < 34)

-- The frame is over, one way or the other.
abbrev pub IsOver : Decoder → Type 0
IsOver d = (d.status ≡ done) ⊎ (d.status ≡ error)

push_busy-rank :
    (d : Decoder) (level : Bool)
    → d.status ≡ busy
    → InProgress d
    → let d' = push_busy d level in
      IsOver d' ⊎ ((d'.status ≡ busy) × InProgress d' × (rank d' < rank d))
unfolding push_busy transition take_middle record_bit fail rank
push_busy-rank d level b p = ground arith

push-frozen : (d : Decoder) (level : Bool) → IsOver d → push d level ≡ d
unfolding push
push-frozen d level o = ground arith

pub sample-frozen : (d : Decoder) (ls : List Bool) → IsOver d → sample d ls ≡ d
unfolding sample
sample-frozen d [] o = refl
sample-frozen d (l ∷ ls) o = rw (push-frozen d l o) (sample-frozen d ls o)

pub sample-busy :
    (d : Decoder) (x : Bool) (ls : List Bool)
    → d.status ≡ busy
    → sample d (x ∷ ls) ≡ sample (push_busy d x) ls
unfolding sample push
sample-busy d x ls b = rw b refl

-- A frame in progress is over after at most as many samples as its rank.
sample-ends :
    (n : ℕ) (d : Decoder) (ls : List Bool)
    → d.status ≡ busy
    → InProgress d
    → rank d ≤ n
    → n ≤ length ls
    → IsOver (sample d ls)
sample-ends zero d ls b p r l = absurd (unfold rank in ground arith)
sample-ends (suc n) d [] b p r l = absurd (omega arith)
sample-ends (suc n) d (x ∷ ls) b p r l = elim (push_busy-rank d x b p) [
  | inl over ↦ rw (sample-busy d x ls b, sample-frozen (push_busy d x) ls over) over
  | inr (going, p', less) ↦
      rw (sample-busy d x ls b)
        (sample-ends n (push_busy d x) ls going p' (omega arith) (omega arith))
]

-- A frame that is in progress has places left.
abbrev pub IsPlaced : Decoder → Type 0
IsPlaced d = d.status ≡ busy → InProgress d

push_idle-IsPlaced : (d : Decoder) (level : Bool) → d.status ≡ idle → IsPlaced (push_idle d level)
unfolding push_idle
push_idle-IsPlaced d level i b = ground arith

push_busy-IsPlaced :
    (d : Decoder) (level : Bool) → d.status ≡ busy → IsPlaced d → IsPlaced (push_busy d level)
push_busy-IsPlaced d level b p going = ground (arith, push_busy-rank d level b (p b))

push-IsPlaced : (d : Decoder) (level : Bool) → IsPlaced d → IsPlaced (push d level)
unfolding push
push-IsPlaced d level p = ground (arith, push_idle-IsPlaced d level, push_busy-IsPlaced d level)

sample-IsPlaced : (d : Decoder) (ls : List Bool) → IsPlaced d → IsPlaced (sample d ls)
unfolding sample
sample-IsPlaced d [] p = p
sample-IsPlaced d (l ∷ ls) p = sample-IsPlaced (push d l) ls (push-IsPlaced d l p)

pub sample_app : (d : Decoder) (ls ms : List Bool) → sample d (ls ++ ms) ≡ sample (sample d ls) ms
unfolding sample
sample_app d [] ms = refl
sample_app d (l ∷ ls) ms = sample_app (push d l) ls ms

-- A reception ends, whatever the line does: once a frame is in progress after a reset, any 884
-- further samples bring it to DONE or to ERROR.
pub reception_ends :
    (before after : List Bool)
    → (sample reset before).status ≡ busy
    → 884 ≤ length after
    → IsOver (sample reset (before ++ after))
reception_ends before after b l =
    let d = sample reset before in
    let p = sample-IsPlaced reset before (λ e. unfold reset in cc) in
    let r : rank d ≤ 884 = unfold rank in ground (arith, p b) in
    rw (sample_app reset before after) (sample-ends 884 d after b (p b) r l)
