-- ===== src/Recombiner/Stream.antt =====
-- pub/pkt_recombiner.cpp: the messages of a BT connection are processed one by one as they arrive.
use resource_cache.Common.{
  refl, ℕ, zero, suc, ◌+◌, ◌^◌, ◌<◌, ◌≡◌, ap, ◌∙◌, true, false, List, [], ◌∷◌, ◌++◌, map, length,
  ◌==◌, if◌then◌else◌, arith, length-append, dec_lt,
}
use resource_cache.Common.Results.{ok, ◌>>=◌}
use resource_cache.Recombiner.Memory.{Heap}
use resource_cache.Recombiner.Buffer.{PktBuf}
use resource_cache.Recombiner.Recognizers.{bt_recognizers}
use resource_cache.Recombiner.Process.{Call, process_pkt}
use resource_cache.Recombiner.Held.{IsValid, contents, length-contents}
use resource_cache.Recombiner.Frames.{Frame, frame_bytes}
use resource_cache.Recombiner.Turns.{
  stream, AllFrames, frame_call, next_length, next_length_pos, IsRoomy, part_turn, whole_turn,
}

-- Of the messages `fs`, which end with the bytes `ys` that are still to come, the first ones were
-- processed, and the next one is not there as a whole.
pub record Processed (b : PktBuf) (fs : List Frame) (ys : List ℕ) (calls : List Call) (b' : PktBuf)
    : Type 0 where
  pub done : List Frame
  pub left : List Frame
  pub cut : fs ≡ done ++ left
  pub called : calls ≡ map frame_call done
  pub valid : IsValid b'
  pub held : contents b' ++ ys ≡ stream left
  pub short : b'.buf_size < next_length left
  pub end_stays : b'.read_index + b'.buf_size ≡ b.read_index + b.buf_size
  pub same_length : length b'.buf ≡ length b.buf

pub process_none :
    (b : PktBuf) (fs : List Frame) (ys : List ℕ)
    → IsValid b
    → contents b ++ ys ≡ stream fs
    → b.buf_size < next_length fs
    → Processed b fs ys [] b
process_none b fs ys v e s = record {
  done = [];
  left = fs;
  cut = refl;
  called = refl;
  valid = v;
  held = e;
  short = s;
  end_stays = refl;
  same_length = refl;
}

process_more :
    (b b' b'' : PktBuf) (f : Frame) (fs : List Frame) (ys : List ℕ) (calls : List Call)
    → b'.read_index + b'.buf_size ≡ b.read_index + b.buf_size
    → length b'.buf ≡ length b.buf
    → Processed b' fs ys calls b''
    → Processed b (f ∷ fs) ys (frame_call f ∷ calls) b''
process_more b b' b'' f fs ys calls e l p = record {
  done = f ∷ p.done;
  left = p.left;
  cut = ap (λ t. f ∷ t) p.cut;
  called = ap (λ t. frame_call f ∷ t) p.called;
  valid = p.valid;
  held = p.held;
  short = p.short;
  end_stays = p.end_stays ∙ e;
  same_length = p.same_length ∙ l;
}

module _ (heap : Heap) where
  after_turn :
      (fuel : ℕ) (b b' : PktBuf) (f : Frame) (fs : List Frame) (ys : List ℕ)
      → process_pkt heap bt_recognizers (suc fuel) b ≡ (
          let more = (do
            (calls, b'') ← process_pkt heap bt_recognizers fuel b'
            ok (frame_call f ∷ calls, b'')) in
          if b'.buf_size == 0 then ok (frame_call f ∷ [], b') else more)
      → IsValid b'
      → contents b' ++ ys ≡ stream fs
      → b'.read_index + b'.buf_size ≡ b.read_index + b.buf_size
      → length b'.buf ≡ length b.buf
      → (0 < b'.buf_size
          → (calls : List Call) × (b'' : PktBuf) × (process_pkt heap bt_recognizers fuel b'
              ≡ ok (calls, b''))
            × Processed b' fs ys calls b'')
      → Dec (0 < b'.buf_size)
      → (calls : List Call) × (b'' : PktBuf) × (process_pkt heap bt_recognizers (suc fuel) b
          ≡ ok (calls, b''))
        × Processed b (f ∷ fs) ys calls b''
  after_turn fuel b b' f fs ys t v e stays same more (yes p) =
      let (calls, b'', q, r) = more p in
      let again : (b'.buf_size == 0) ≡ false = ground arith in
      (
        frame_call f ∷ calls,
        b'',
        t ∙ rw (again, q) refl,
        process_more b b' b'' f fs ys calls stays same r,
      )
  after_turn fuel b b' f fs ys t v e stays same more (no p) =
      let last : (b'.buf_size == 0) ≡ true = ground arith in
      (
        frame_call f ∷ [],
        b',
        t ∙ rw last refl,
        process_more b b' b' f fs ys [] stays same
            (process_none b' fs ys v e (omega (arith, p, next_length_pos fs))),
      )

  -- The turns go on until the next message is not there as a whole.
  pub process_pkt_lem :
      (fuel : ℕ) (b : PktBuf) (fs : List Frame) (ys : List ℕ)
      → IsValid b
      → IsRoomy b
      → AllFrames fs
      → contents b ++ ys ≡ stream fs
      → 0 < b.buf_size
      → b.buf_size < fuel
      → b.read_index + b.buf_size < 2 ^ 32
      → (calls : List Call) × (b' : PktBuf) × (process_pkt heap bt_recognizers fuel b
          ≡ ok (calls, b'))
        × Processed b fs ys calls b'
  process_pkt_lem zero b fs ys v roomy a e p l s = absurd (omega arith)
  process_pkt_lem (suc fuel) b [] ys v roomy a e p l s =
      absurd (omega (arith, ap length e, length-append (contents b) ys, length-contents b v))
  process_pkt_lem (suc fuel) b (f ∷ fs) ys v roomy a e p l s =
      elim (dec_lt b.buf_size (length (frame_bytes f))) [
        | yes part ↦ (
          [],
          b,
          part_turn heap fuel b f (stream fs) ys (contents b) v roomy a.0 refl e p part,
          process_none b (f ∷ fs) ys v e part,
        )
        | no whole ↦
            (let (b', t, v', e', stays, shorter, same) =
                whole_turn heap fuel b f (stream fs) ys v a.0 e (omega (arith, whole)) s in
              after_turn fuel b b' f fs ys t v' e' stays same
                (λ more.
                  process_pkt_lem fuel b' fs ys v' (omega (arith, roomy, stays, same)) a.1 e' more
                    (omega (arith, shorter, next_length_pos (f ∷ fs))) (omega (arith, stays)))
                (dec_lt 0 b'.buf_size))
      ]
