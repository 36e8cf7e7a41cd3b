-- ===== src/Dtest/Process/Capture.antt =====
-- dtest/src/process.cpp: what the capture of the output keeps of what the child wrote.
use native.Mathlib.Numerals.{add-one}
use computing_test_plat.Base.{
  ℕ, zero, suc, ◌-◌, ◌≤◌, ◌≡◌, refl, ap, sym, ◌∙◌, List, [], ◌∷◌, ◌++◌, append-nil, append_assoc,
  Bool, true, false, ◌||◌, ltb, if◌then◌else◌, if_both, Text, length, length-append, take, arith,
}
use computing_test_plat.Dtest.Process.Launch.{launched}
use computing_test_plat.Dtest.Process.{
  ReadResult, bytes, end_of_file, no_data, read_failed, Stream, drain, drain_open, Host, Parent,
  read_ready,
}

-- The bytes that a series of reads gives, up to the end of the stream or of what is there now.
pub bytes_of : List ReadResult → Text
bytes_of [] = []
bytes_of (bytes chunk ∷ reads) = chunk ++ bytes_of reads
bytes_of (end_of_file ∷ reads) = []
bytes_of (ReadResult.interrupted ∷ reads) = bytes_of reads
bytes_of (no_data ∷ reads) = []
bytes_of (read_failed ∷ reads) = []

-- Whether the stream may have more afterwards.
pub stays_open : List ReadResult → Bool
stays_open [] = true
stays_open (bytes chunk ∷ reads) = stays_open reads
stays_open (end_of_file ∷ reads) = false
stays_open (ReadResult.interrupted ∷ reads) = stays_open reads
stays_open (no_data ∷ reads) = true
stays_open (read_failed ∷ reads) = false

length-take : (n : ℕ) (w : Text) → length (take n w) ≡ (if ltb (length w) n then length w else n)
length-take zero w = ground arith
length-take (suc n) [] = ground arith
length-take (suc n) (x ∷ w) = ground (arith, length-take n w)

take_room : (n : ℕ) (w c : Text) → take n w ++ take (n - length (take n w)) c ≡ take n (w ++ c)
take_room zero w c =
    let same : 0 - length (take {A = ℕ} 0 w) ≡ 0 = omega arith in ap (λ k. take k c) same
take_room (suc n) [] c = let same : suc n - 0 ≡ suc n = omega arith in ap (λ k. take k c) same
take_room (suc n) (x ∷ w) c =
    let same : suc n - suc (length (take n w)) ≡ n - length (take n w) = omega arith in
    rw same (ap (λ t. x ∷ t) (take_room n w c))

take_all : (n : ℕ) (c : Text) → length c ≤ n → take n c ≡ c
take_all zero [] h = refl
take_all zero (x ∷ c) h = absurd (omega arith)
take_all (suc n) [] h = refl
take_all (suc n) (x ∷ c) h = ap (λ t. x ∷ t) (take_all n c (omega arith))

room : ℕ → Text → ℕ
room limit into = if ltb (length into) limit then limit - length into else 0

taken : ℕ → Text → Text → ℕ
taken limit into c = let r = room limit into in if ltb r (length c) then r else length c

take-taken :
    (limit : ℕ) (into c : Text) → take (taken limit into c) c ≡ take (limit - length into) c
unfolding taken room
take-taken limit into c =
    let r : room limit into ≡ limit - length into = ground arith in
    if_both (λ (n : ℕ). take n c ≡ take (limit - length into) c) (ltb (room limit into) (length c))
      _ _ (λ _. ap (λ n. take n c) r)
      (λ fits.
        take_all (length c) c (omega arith)
        ∙ sym_take (limit - length into) c (ground (arith, fits, r)))
  where
    sym_take : (n : ℕ) (s : Text) → length s ≤ n → s ≡ take n s
    sym_take n s h = sym (take_all n s h)

taken_short :
    (limit : ℕ) (w c : Text) (t : Bool)
    → ((t || ltb limit (length w)) || ltb (taken limit (take limit w) c) (length c))
      ≡ (t || ltb limit (length (w ++ c)))
unfolding taken room
taken_short limit w c t =
    let size = length-append w c in let kept = length-take limit w in ground (arith, size, kept)

-- What is kept of the bytes `w` of one stream, `t` being whether bytes of the other were discarded.
record Kept (limit : ℕ) (w : Text) (t open_after : Bool) (s : Stream) : Type 0 where
  pub into : s.into ≡ take limit w
  pub truncated : s.truncated ≡ (t || ltb limit (length w))
  pub more : s.more ≡ open_after

drain-Kept :
    (limit : ℕ) (reads : List ReadResult) (w into : Text) (t truncated : Bool)
    → into ≡ take limit w
    → truncated ≡ (t || ltb limit (length w))
    → Kept limit (w ++ bytes_of reads) t (stays_open reads) (drain limit reads into truncated)
unfolding drain bytes_of stays_open taken room
drain-Kept limit [] w into t b e f = rw append-nil (record { into = e; truncated = f; more = refl })
drain-Kept limit (bytes chunk ∷ reads) w into t b e f =
    rw (← append_assoc w chunk (bytes_of reads)) (
      drain-Kept limit reads (w ++ chunk) _ t _
        (rw e (
          ap (λ k. take limit w ++ k) (take-taken limit (take limit w) chunk)
          ∙ take_room limit w chunk))
        (rw (e, f) (taken_short limit w chunk t)))
drain-Kept limit (end_of_file ∷ reads) w into t b e f =
    rw append-nil (record { into = e; truncated = f; more = refl })
drain-Kept limit (ReadResult.interrupted ∷ reads) w into t b e f =
    drain-Kept limit reads w into t b e f
drain-Kept limit (no_data ∷ reads) w into t b e f =
    rw append-nil (record { into = e; truncated = f; more = refl })
drain-Kept limit (read_failed ∷ reads) w into t b e f =
    rw append-nil (record { into = e; truncated = f; more = refl })

-- A stream that has delivered `w`, and whether it may have more, after a further series of reads.
abbrev pub receive : Bool × Text → List ReadResult → Bool × Text
receive (true, w) reads = (stays_open reads, w ++ bytes_of reads)
receive (false, w) reads = (false, w)

-- All that a stream delivered in the first rounds.
pub delivered : (ℕ → List ReadResult) → ℕ → Bool × Text
delivered reads zero = (true, [])
delivered reads (suc n) = receive (delivered reads n) (reads n)

drain_open-Kept :
    (limit : ℕ) (reads : List ReadResult) (d : Bool × Text) (into : Text) (t truncated : Bool)
    → into ≡ take limit d.1
    → truncated ≡ (t || ltb limit (length d.1))
    → Kept limit
        (receive d reads).1
        t
        (receive d reads).0
        (drain_open d.0 limit reads into truncated)
unfolding drain_open
drain_open-Kept limit reads (true, w) into t b e f = drain-Kept limit reads w into t b e f
drain_open-Kept limit reads (false, w) into t b e f = record {
  into = e;
  truncated = f;
  more = refl;
}

-- The two texts and the mark are exactly what is due for the bytes `v` and `w` of the two streams.
pub record Captured (limit : ℕ) (v w : Text) (o e : Text) (t : Bool) : Type 0 where
  pub out : o ≡ take limit v
  pub err : e ≡ take limit w
  pub truncated : t ≡ (ltb limit (length v) || ltb limit (length w))

or_swap : (a b c : Bool) → c ≡ (b || a) → c ≡ (a || b)
or_swap a b c h = ground (arith, h)

-- Both streams are read, the one after the other.
pub drain_both :
    (limit : ℕ) (d f : Bool × Text) (reads others : List ReadResult) (o e : Text) (t : Bool)
    → Captured limit d.1 f.1 o e t
    → let s = drain_open d.0 limit reads o t in
      let u = drain_open f.0 limit others e s.truncated in
      Captured limit (receive d reads).1 (receive f others).1 s.into u.into u.truncated
      × (s.more ≡ (receive d reads).0)
      × (u.more ≡ (receive f others).0)
drain_both limit d f reads others o e t c =
    let s =
      drain_open-Kept limit reads d o (ltb limit (length f.1)) t c.out
        (or_swap (ltb limit (length f.1)) (ltb limit (length d.1)) t c.truncated) in
    let u =
      drain_open-Kept limit others f e (ltb limit (length (receive d reads).1)) _ c.err
        (or_swap (ltb limit (length (receive d reads).1)) (ltb limit (length f.1)) _ s.truncated) in
    (record { out = s.into; err = u.into; truncated = u.truncated }, s.more, u.more)

-- What the parent holds is what is due for the rounds so far.
pub record IsCurrent (h : Host) (limit : ℕ) (p : Parent) : Type 0 where
  pub out_open : p.out_open ≡ (delivered h.out_reads p.rounds).0
  pub err_open : p.err_open ≡ (delivered h.err_reads p.rounds).0
  pub texts :
      Captured limit
        (delivered h.out_reads p.rounds).1
        (delivered h.err_reads p.rounds).1
        p.out
        p.err
        p.truncated

pub read_ready-IsCurrent :
    (h : Host) (limit : ℕ) (p : Parent)
    → IsCurrent h limit p
    → IsCurrent h limit (read_ready h limit p)
unfolding read_ready delivered
read_ready-IsCurrent h limit p c =
    let (texts, out_open, err_open) =
      drain_both limit (delivered h.out_reads p.rounds) (delivered h.err_reads p.rounds)
        (h.out_reads p.rounds) (h.err_reads p.rounds) p.out p.err p.truncated c.texts in
    rw (add-one p.rounds, c.out_open, c.err_open)
      (record { out_open = out_open; err_open = err_open; texts = texts })

pub launched-IsCurrent : (h : Host) (limit : ℕ) → IsCurrent h limit launched
unfolding delivered
launched-IsCurrent h limit = record {
  out_open = refl;
  err_open = refl;
  texts = record { out = nothing limit; err = nothing limit; truncated = ground arith };
}
  where
    nothing : (n : ℕ) → [] ≡ take {A = ℕ} n []
    nothing zero = refl
    nothing (suc n) = refl
