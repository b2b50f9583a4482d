-- ===== src/Ser/Coding.antt =====
-- core/src/ser.rs: a writer's bytes that a reader turns back into the value, put together along the
-- writing and reading of parts.
use grin.Prelude.{
  ℕ, ◌≤◌, ◌≡◌, refl, ap, sym, ◌∙◌, arith, List, [], ◌∷◌, ◌++◌, length, All, ok, ltb, ◌==◌, true,
  false,
}
use mathlib.Core.List.{append_assoc, append-nil}
use grin.Ser.Types.{ByteOrder, full}
use grin.Ser.Stream.{Stream, pure, ◌>>=◌}
use grin.Ser.Writer.{Writer, write_fixed_bytes, write_all}
use grin.Ser.Reader.{Reader, collect, collect_step, read_multi}
use grin.Ser.Laws.{Reads, ReaderLaws}

abbrev pub sink_of : ℕ → List ℕ → Writer
sink_of v sink = record { sink = sink; version = v; mode = full }

-- In full mode and the version `v`, the action writes these bytes.
abbrev pub Appends : ℕ → Stream Writer (Unit {0}) → List ℕ → Type 0
Appends v m bytes = (sink : List ℕ) → m (sink_of v sink) ≡ ok (tt, sink_of v (sink ++ bytes))

pub Appends-fixed : (v : ℕ) (bytes : List ℕ) → Appends v (write_fixed_bytes bytes) bytes
unfolding write_fixed_bytes
Appends-fixed v bytes sink = refl

pub Appends-then :
    (v : ℕ) (m k : Stream Writer (Unit {0})) (bs cs : List ℕ)
    → Appends v m bs
    → Appends v k cs
    → Appends v (m >>= λ _. k) (bs ++ cs)
Appends-then v m k bs cs f g sink = rw (f sink, g (sink ++ bs), append_assoc sink bs cs) refl

module _ (order : ByteOrder) (S : Type 0) (r : Reader S) (laws : ReaderLaws order S r) (v : ℕ) where
  module _ {A : Type 0} where
    -- In the version `v`, these bytes are read as the value, whatever follows.
    abbrev pub ReadsAs : Stream S A → List ℕ → A → Type 0
    ReadsAs m bytes a =
        (s : S) (rest : List ℕ)
        → r.protocol_version s ≡ v
        → laws.remaining s ≡ bytes ++ rest
        → Reads r (laws.remaining) s a rest (m s)

    pub reads_pure : (a : A) → ReadsAs (pure a) [] a
    reads_pure a s rest ev e = (s, refl, e, refl)

    -- What is written can be read back.
    abbrev pub Coded : Stream Writer (Unit {0}) → Stream S A → A → Type 0
    Coded write read a = (bytes : List ℕ) × Appends v write bytes × ReadsAs read bytes a

  module _ {A B : Type 0} where
    pub reads_then :
        (m : Stream S A) (f : A → Stream S B) (a : A) (b : B) (bs cs : List ℕ)
        → ReadsAs m bs a
        → ReadsAs (f a) cs b
        → ReadsAs (m >>= f) (bs ++ cs) b
    reads_then m f a b bs cs h k s rest ev e =
        let (s1, e1, r1, v1) = h s (cs ++ rest) ev (e ∙ append_assoc bs cs rest) in
        let (s2, e2, r2, v2) = k s1 rest (v1 ∙ ev) r1 in (s2, rw (e1, e2) refl, r2, v2 ∙ v1)

    -- The last part, after which only the value is built.
    pub reads_last :
        (m : Stream S A) (f : A → B) (a : A) (bs : List ℕ)
        → ReadsAs m bs a
        → ReadsAs (m >>= λ x. pure (f x)) bs (f a)
    reads_last m f a bs h s rest ev e =
        let (s1, e1, r1, v1) = h s rest ev e in (s1, rw e1 refl, r1, v1)

  -- A value of one, two or three parts.
  module _ {A D : Type 0} where
    pub Coded-one :
        (w : Stream Writer (Unit {0})) (m : Stream S A) (g : A → D) (a : A)
        → Coded w m a
        → Coded w (m >>= λ x. pure (g x)) (g a)
    Coded-one w m g a c = (c.0, c.1, reads_last m g a (c.0) (c.2))

    pub Coded-then :
        (w k : Stream Writer (Unit {0})) (m : Stream S A) (f : A → Stream S D) (a : A) (d : D)
        → Coded w m a
        → Coded k (f a) d
        → Coded (w >>= λ _. k) (m >>= f) d
    Coded-then w k m f a d c1 c2 = (
      c1.0 ++ c2.0,
      Appends-then v w k (c1.0) (c2.0) (c1.1) (c2.1),
      reads_then m f a d (c1.0) (c2.0) (c1.2) (c2.2),
    )

    -- The value is only checked at the end.
    pub Coded-final :
        (w : Stream Writer (Unit {0})) (m : Stream S A) (f : A → Stream S D) (a : A) (d : D)
        → Coded w m a
        → ReadsAs (f a) [] d
        → Coded w (m >>= f) d
    Coded-final w m f a d c k = (
      c.0,
      c.1,
      λ s rest ev e.
          let (s1, e1, r1, v1) = c.2 s rest ev e in
          let (s2, e2, r2, v2) = k s1 rest (v1 ∙ ev) r1 in (s2, rw (e1, e2) refl, r2, v2 ∙ v1),
    )

  module _ {A B D : Type 0} where
    pub Coded-two :
        (w1 w2 : Stream Writer (Unit {0})) (m1 : Stream S A) (m2 : Stream S B) (g : A → B → D)
        (a : A) (b : B)
        → Coded w1 m1 a
        → Coded w2 m2 b
        → Coded (w1 >>= λ _. w2) (m1 >>= λ x. (m2 >>= λ y. pure (g x y))) (g a b)
    Coded-two w1 w2 m1 m2 g a b c1 c2 =
        Coded-then w1 w2 m1 (λ x. (m2 >>= λ y. pure (g x y))) a (g a b) c1
          (Coded-one w2 m2 (g a) b c2)

  module _ {A B C D : Type 0} where
    pub Coded-three :
        (w1 w2 w3 : Stream Writer (Unit {0})) (m1 : Stream S A) (m2 : Stream S B) (m3 : Stream S C)
        (g : A → B → C → D) (a : A) (b : B) (c : C)
        → Coded w1 m1 a
        → Coded w2 m2 b
        → Coded w3 m3 c
        → Coded
            (w1 >>= λ _. (w2 >>= λ _. w3))
            (m1 >>= λ x. (m2 >>= λ y. (m3 >>= λ z. pure (g x y z))))
            (g a b c)
    Coded-three w1 w2 w3 m1 m2 m3 g a b c c1 c2 c3 =
        Coded-then w1 (w2 >>= λ _. w3) m1 (λ x. (m2 >>= λ y. (m3 >>= λ z. pure (g x y z)))) a
          (g a b c) c1 (Coded-two w2 w3 m2 m3 (g a) b c c2 c3)

  module _ {A : Type 0} (write : A → Stream Writer (Unit {0})) (read : Stream S A) where
    -- What a list of items is collected from.
    abbrev Collects : List A → List ℕ → Type 0
    Collects xs bytes =
        (s : S) (rest : List ℕ)
        → r.protocol_version s ≡ v
        → laws.remaining s ≡ bytes ++ rest
        → (s' : S) × Path (List A × S) (collect read (length xs) s) (xs, s')
          × (laws.remaining s' ≡ rest)
          × (r.protocol_version s' ≡ r.protocol_version s)

    Collects-step :
        (x : A) (xs : List A) (bs cs : List ℕ)
        → ReadsAs read bs x
        → Collects xs cs
        → Collects (x ∷ xs) (bs ++ cs)
    unfolding collect collect_step
    Collects-step x xs bs cs h k s rest ev e =
        let (s1, e1, r1, v1) = h s (cs ++ rest) ev (e ∙ append_assoc bs cs rest) in
        let (s2, e2, r2, v2) = k s1 rest (v1 ∙ ev) r1 in (s2, rw (e1, e2) refl, r2, v2 ∙ v1)

    items :
        (xs : List A)
        → All (λ x. Coded (write x) read x) xs
        → (bytes : List ℕ) × Appends v (write_all write xs) bytes × Collects xs bytes
    unfolding collect write_all
    items [] h = (
      [],
      λ sink. ap (λ (bs : List ℕ). ok (tt, sink_of v bs)) (sym (append-nil sink)),
      λ s rest ev e. (s, refl, e, refl),
    )
    items (x ∷ xs) h =
        let (bs, wx, rx) = h.0 in
        let (cs, wxs, rxs) = items xs (h.1) in
        (
          bs ++ cs,
          Appends-then v (write x) (write_all write xs) bs cs wx wxs,
          Collects-step x xs bs cs rx rxs,
        )

    -- A list of at most a million items.
    pub Coded-list :
        (xs : List A)
        → length xs ≤ 1000000
        → All (λ x. Coded (write x) read x) xs
        → Coded (write_all write xs) (read_multi read (length xs)) xs
    unfolding read_multi
    Coded-list xs b h =
        let (bytes, w, c) = items xs h in
        let small : ltb 1000000 (length xs) ≡ false = ground arith in
        let counted : (length xs == length xs) ≡ true = ground arith in
        (
          bytes,
          w,
          λ s rest ev e.
              let (s', es, er, ev') = c s rest ev e in (s', rw (small, es, counted) refl, er, ev'),
        )
