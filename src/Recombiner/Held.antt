-- ===== src/Recombiner/Held.antt =====
-- pub/pkt_recombiner.cpp: a `PktBuf` holds the bytes that were appended and not yet retrieved.
use resource_cache.Common.{
  refl, ℕ, ◌+◌, ◌-◌, ◌*◌, ◌%◌, ◌^◌, ◌≤◌, ◌<◌, ◌≡◌, ap, sym, ◌∙◌, Bool, true, false, some, List,
  ◌++◌, length, take, drop, ltb, if◌then◌else◌, arith, le→leb, length-append, length-take,
  length-drop, drop-take, drop-append, take-append, drop-drop, append_assoc,
}
use resource_cache.Recombiner.Memory.{Heap, reserve, bytes_at, write_at}
use resource_cache.Recombiner.Buffer.{PktBuf, enlarge, make_room, append_data, retrive_data}

pub record IsValid (b : PktBuf) : Type 0 where
  pub fits : b.read_index + b.buf_size ≤ length b.buf

abbrev pub contents : PktBuf → List ℕ
contents b = take b.buf_size (drop b.read_index b.buf)

pub length-contents : (b : PktBuf) → IsValid b → length (contents b) ≡ b.buf_size
length-contents b v =
    length-take b.buf_size (drop b.read_index b.buf)
      (omega (arith, length-drop b.read_index b.buf, v.fits))

no_wrap : (n : ℕ) → n < 2 ^ 32 → n % 2 ^ 32 ≡ n
no_wrap n h = omega arith

bytes_at_lem :
    (buf : List ℕ) (i n : ℕ) → i + n ≤ length buf → bytes_at buf i n ≡ some (take n (drop i buf))
unfolding bytes_at
bytes_at_lem buf i n h = rw (le→leb (i + n) (length buf) h) refl

-- The bytes follow those that stood between `r` and `r + s`, and the memory is as large as before.
record Writes (buf : List ℕ) (r s : ℕ) (bytes buf' : List ℕ) : Type 0 where
  same_length : length buf' ≡ length buf
  follows : take (s + length bytes) (drop r buf') ≡ take s (drop r buf) ++ bytes

write_at-Writes :
    (buf : List ℕ) (r s i : ℕ) (bytes : List ℕ)
    → i ≡ r + s
    → i + length bytes ≤ length buf
    → Writes buf r s bytes (take i buf ++ (bytes ++ drop (i + length bytes) buf))
write_at-Writes buf r s i bytes e h =
    let rest = drop (i + length bytes) buf in
    let front = length-take i buf (omega arith) in
    let kept = length-take s (drop r buf) (omega (arith, length-drop r buf, e)) in
    record {
      same_length = omega (
        arith,
        length-append (take i buf) (bytes ++ rest),
        length-append bytes rest,
        front,
        length-drop (i + length bytes) buf,
      );
      follows =
          rw
            (
              drop-append r (take i buf) (bytes ++ rest) (omega (arith, e, front)),
              drop-take i r s buf e,
              sym (append_assoc (take s (drop r buf)) bytes rest),
            )
            (take-append (s + length bytes) (take s (drop r buf) ++ bytes) rest
              (omega (arith, length-append (take s (drop r buf)) bytes, kept)));
    }

write_at_lem :
    (buf : List ℕ) (r s i : ℕ) (bytes : List ℕ)
    → i ≡ r + s
    → i + length bytes ≤ length buf
    → (buf' : List ℕ) × (write_at buf i bytes ≡ some buf') × Writes buf r s bytes buf'
unfolding write_at
write_at_lem buf r s i bytes e h =
    (_, rw (le→leb (i + length bytes) (length buf) h) refl, write_at-Writes buf r s i bytes e h)

pub write_front_lem :
    (buf : List ℕ) (n : ℕ) (bytes : List ℕ)
    → n ≡ length bytes
    → n ≤ length buf
    → (buf' : List ℕ) × (write_at buf 0 bytes ≡ some buf')
      × (length buf' ≡ length buf)
      × (take n buf' ≡ bytes)
write_front_lem buf n bytes e h =
    let (buf', q, w) = write_at_lem buf 0 0 0 bytes (omega arith) (omega (arith, e)) in
    (buf', q, w.same_length, ap (λ k. take k buf') (omega (arith, e)) ∙ w.follows)

-- Room for `len` bytes behind what is held, which is as before and stands in front.
pub record HasRoom (b : PktBuf) (len : ℕ) (b' : PktBuf) : Type 0 where
  same_size : b'.buf_size ≡ b.buf_size
  no_further : b'.read_index ≤ b.read_index
  room : b'.read_index + b'.buf_size + len ≤ length b'.buf
  same_contents : contents b' ≡ contents b
  stays : b.read_index + b.buf_size + len ≤ length b.buf → length b'.buf ≡ length b.buf

pub record Appends (b : PktBuf) (bytes : List ℕ) (b' : PktBuf) : Type 0 where
  pub valid : IsValid b'
  pub held : contents b' ≡ contents b ++ bytes
  pub no_further : b'.read_index ≤ b.read_index
  pub size : b'.buf_size ≡ b.buf_size + length bytes
  pub stays : b.read_index + b.buf_size + length bytes ≤ length b.buf → length b'.buf ≡ length b.buf

module _ (heap : Heap) where
  length-reserve : (n : ℕ) (buf : List ℕ) → n ≤ length (reserve heap n buf)
  unfolding reserve
  length-reserve n buf = ground (arith, heap.roomy n)

  -- The first `s` bytes are kept, and there is room for as many as are asked for.
  enlarge_lem :
      (f s : ℕ) (buf : List ℕ)
      → 2 * f < 2 ^ 32
      → s ≤ f
      → s ≤ length buf
      → (buf' : List ℕ) × (enlarge heap f s buf ≡ some buf')
        × (f ≤ length buf')
        × (take s buf' ≡ take s buf)
  unfolding enlarge
  enlarge_lem f s buf small h l =
      let roomy = length-reserve ((f * 2) % 2 ^ 32) buf in
      let (buf', e, same, front) =
        write_front_lem (reserve heap ((f * 2) % 2 ^ 32) buf) s (take s buf)
          (sym (length-take s buf l)) (omega arith) in
      (
        buf',
        rw (bytes_at_lem buf 0 s (omega (arith, l)), e) refl,
        omega (arith, roomy, same),
        front,
      )

  -- The conditional of `make_room`.
  enlarge_if :
      (test : Bool) (f s n : ℕ) (buf : List ℕ)
      → test ≡ ltb (length buf) n
      → 2 * f < 2 ^ 32
      → s ≤ n
      → n ≤ f
      → s ≤ length buf
      → (buf' : List ℕ) × ((if test then enlarge heap f s buf else some buf) ≡ some buf')
        × (n ≤ length buf')
        × (take s buf' ≡ take s buf)
  enlarge_if true f s n buf e small h h' l =
      let (buf', q, l', t) = enlarge_lem f s buf small (omega arith) l in (buf', q, omega arith, t)
  enlarge_if false f s n buf e small h h' l = (buf, refl, ground arith, refl)

  make_room_lem :
      (b : PktBuf) (f n len : ℕ)
      → IsValid b
      → f ≡ b.read_index + b.buf_size + len
      → n ≡ b.buf_size + len
      → ltb (length b.buf) f ≡ true
      → 2 * f < 2 ^ 32
      → (b' : PktBuf) × (make_room heap f len b ≡ some b') × HasRoom b len b'
  unfolding make_room
  make_room_lem b f n len v e e' t small =
      let (buf, q, same, front) =
        write_front_lem b.buf b.buf_size (contents b) (sym (length-contents b v))
          (omega (arith, v.fits)) in
      let (buf', q', l, front') =
        enlarge_if (ltb (length buf) n) f b.buf_size n buf refl small (omega (arith, e'))
          (omega (arith, e, e')) (omega (arith, same, v.fits)) in
      (
        record { buf = buf'; read_index = 0; buf_size = b.buf_size },
        rw
            (
              no_wrap (b.buf_size + len) (omega (arith, e)),
              sym e',
              bytes_at_lem b.buf b.read_index b.buf_size v.fits,
              q,
              q',
              le→leb n (length buf') l,
            )
            refl,
        record {
          same_size = refl;
          no_further = omega arith;
          room = omega (arith, l, e');
          same_contents = front' ∙ front;
          stays = λ h. absurd (ground (arith, t, e));
        },
      )

  room_if :
      (test : Bool) (b : PktBuf) (f len : ℕ)
      → IsValid b
      → test ≡ ltb (length b.buf) f
      → f ≡ b.read_index + b.buf_size + len
      → 2 * f < 2 ^ 32
      → (b' : PktBuf) × ((if test then make_room heap f len b else some b) ≡ some b')
        × HasRoom b len b'
  room_if true b f len v t e small = make_room_lem b f (b.buf_size + len) len v e refl (sym t) small
  room_if false b f len v t e small = (
    b,
    refl,
    record {
      same_size = refl;
      no_further = omega arith;
      room = ground arith;
      same_contents = refl;
      stays = λ h. refl;
    },
  )

  -- `PktBuf::AppendData` copies within bounds and meets no assertion, and what the buffer holds is then
  -- followed by the bytes, as long as twice the end of the bytes, measured from the front of the
  -- memory as it stands, fits in 32 bits.
  pub append_data_lem :
      (b : PktBuf) (bytes : List ℕ)
      → IsValid b
      → 2 * (b.read_index + b.buf_size + length bytes) < 2 ^ 32
      → (b' : PktBuf) × (append_data heap bytes b ≡ some b') × Appends b bytes b'
  unfolding append_data
  append_data_lem b bytes v small =
      let f = b.read_index + b.buf_size + length bytes in
      let (b', q, r) = room_if (ltb (length b.buf) f) b f (length bytes) v refl refl small in
      let (buf, q', w) =
        write_at_lem b'.buf b'.read_index b'.buf_size (b'.read_index + b'.buf_size) bytes refl
          (r.room) in
      let size = no_wrap (b'.buf_size + length bytes) (omega (arith, r.same_size)) in
      (
        record {
          buf = buf;
          read_index = b'.read_index;
          buf_size = (b'.buf_size + length bytes) % 2 ^ 32;
        },
        rw
            (
              no_wrap f (omega arith),
              q,
              no_wrap (b'.read_index + b'.buf_size) (omega (arith, r.no_further, r.same_size)),
              q',
            )
            refl,
        record {
          valid = record { fits = omega (arith, size, w.same_length, r.room) };
          held = rw (size, sym r.same_contents) w.follows;
          no_further = r.no_further;
          size = omega (arith, size, r.same_size);
          stays = λ h. w.same_length ∙ r.stays h;
        },
      )

pub record Retrieves (b : PktBuf) (len : ℕ) (b' : PktBuf) : Type 0 where
  pub valid : IsValid b'
  pub held : contents b' ≡ drop len (contents b)
  pub same_length : length b'.buf ≡ length b.buf
  pub end_stays : b'.read_index + b'.buf_size ≡ b.read_index + b.buf_size

-- `PktBuf::RetriveData` takes bytes away from the front.
pub retrive_data_lem :
    (b : PktBuf) (len : ℕ)
    → IsValid b
    → len ≤ b.buf_size
    → b.read_index + b.buf_size < 2 ^ 32
    → (b' : PktBuf) × (retrive_data len b ≡ some b') × Retrieves b len b'
unfolding retrive_data
retrive_data_lem b len v h small =
    let next = no_wrap (b.read_index + len) (omega arith) in
    (
      record {
        buf = b.buf;
        read_index = (b.read_index + len) % 2 ^ 32;
        buf_size = b.buf_size - len;
      },
      rw (le→leb len b.buf_size h) refl,
      record {
        valid = record { fits = omega (arith, next, v.fits) };
        held =
            rw
              (
                next,
                sym (drop-drop (b.read_index + len) b.read_index len b.buf refl),
                drop-take b.buf_size len (b.buf_size - len) (drop b.read_index b.buf) (omega arith),
              )
              refl;
        same_length = refl;
        end_stays = omega (arith, next);
      },
    )
