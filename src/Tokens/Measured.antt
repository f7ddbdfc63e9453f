-- ===== src/Tokens/Measured.antt =====
-- packages/core/src/heuristic-token-counter.ts and packages/protocol/src/canonical-json.ts: the counter
-- beside the texts that are appended to it.
use ctrl_zebra.Prelude.{
  ℕ, ◌+◌, ◌≡◌, refl, sym, ◌∙◌, ap, arith, Bool, true, false, List, [], ◌∷◌, ◌++◌, ltb,
  if◌then◌else◌, Bool-cases, inl, inr,
}
use ctrl_zebra.Text.{Text, utf8_byte_length, utf8_bytes_for_code_point}
use ctrl_zebra.Canonical.{escaped, escape_text, quoted, join_commas, Written, insert_entry}
use ctrl_zebra.Tools.Json.{utf16, units_before}
use ctrl_zebra.Tokens.{
  BoundedUtf8Counter, add, append, append_escaped, append_json_string, Writer, separated,
  KeyedWriter, insert_writer,
}

-- A counter that was given a number of bytes.
abbrev pub measured : ℕ → ℕ → BoundedUtf8Counter
measured bound n = record {
  maximum_bytes = bound;
  bytes = if ltb bound n then bound else n;
  truncated = ltb bound n;
}

utf8_byte_length-append :
    (s t : Text) → utf8_byte_length (s ++ t) ≡ utf8_byte_length s + utf8_byte_length t
unfolding utf8_byte_length
utf8_byte_length-append [] t = omega arith
utf8_byte_length-append (c ∷ s) t = omega (arith, utf8_byte_length-append s t)

-- What writes a text: on a counter it is as if the text's bytes were counted.
pub record Writes (bound : ℕ) (f : Writer) (t : Text) : Type 0 where
  pub counts : (n : ℕ) → f (measured bound n) ≡ measured bound (n + utf8_byte_length t)

-- Writers and texts, one for one; and the same with keys.
abbrev pub AllWrite : ℕ → List Writer → List Text → Type 0
AllWrite bound [] [] = Unit
AllWrite bound (f ∷ fs) (t ∷ ts) = Writes bound f t × AllWrite bound fs ts
AllWrite bound _ _ = ⊥

abbrev pub AllKeyed : ℕ → List KeyedWriter → List Written → Type 0
AllKeyed bound [] [] = Unit
AllKeyed bound ((k, f) ∷ fs) ((j, t) ∷ ts) = (k ≡ j) × Writes bound f t × AllKeyed bound fs ts
AllKeyed bound _ _ = ⊥

module _ {bound : ℕ} where
  -- A step that a full counter skips.
  unless_full :
      (g : Writer) (k m : ℕ)
      → (ltb bound m ≡ false → g (measured bound m) ≡ measured bound (m + k))
      → (if ltb bound m then measured bound m else g (measured bound m)) ≡ measured bound (m + k)
  unless_full g k m h = elim (Bool-cases (ltb bound m)) [
    | inl full ↦ when_true (ltb bound m) _ _ full ∙ over m k full
    | inr room ↦ when_false (ltb bound m) _ _ room ∙ h room
  ]
    where
      when_true : (b : Bool) (v w : BoundedUtf8Counter) → b ≡ true → (if b then v else w) ≡ v
      when_true b v w e = simp e refl

      when_false : (b : Bool) (v w : BoundedUtf8Counter) → b ≡ false → (if b then v else w) ≡ w
      when_false b v w e = simp e refl

      over : (n k : ℕ) → ltb bound n ≡ true → measured bound n ≡ measured bound (n + k)
      over n k h = ground arith

  add-measured : (n k : ℕ) → ltb bound n ≡ false → add k (measured bound n) ≡ measured bound (n + k)
  add-measured n k h = ground arith

  measured_assoc : (n j k : ℕ) → measured bound (n + j + k) ≡ measured bound (n + (j + k))
  measured_assoc n j k = ap (measured bound) (omega arith)

  pub append-Writes : (t : Text) → Writes bound (append t) t
  unfolding append utf8_byte_length
  append-Writes [] = record { counts = λ n. ap (measured bound) (omega arith) }
  append-Writes (c ∷ cs) = record {
    counts = λ n.
        let k = utf8_bytes_for_code_point c in
        unless_full (λ w. append cs (add k w)) (k + utf8_byte_length cs) n
          (λ room.
            ap (append cs) (add-measured n k room)
            ∙ (append-Writes cs).counts (n + k)
            ∙ measured_assoc n k (utf8_byte_length cs));
  }

  regrouped :
      (n : ℕ) (s t : Text)
      → measured bound (n + utf8_byte_length s + utf8_byte_length t)
        ≡ measured bound (n + utf8_byte_length (s ++ t))
  regrouped n s t = ap (measured bound) (omega (arith, utf8_byte_length-append s t))

  -- One after the other.
  pub both-Writes :
      {f g : Writer} {s t : Text}
      → Writes bound f s
      → Writes bound g t
      → Writes bound (λ w. g (f w)) (s ++ t)
  both-Writes {g = g} {s = s} {t = t} hf hg = record {
    counts = λ n. ap g (hf.counts n) ∙ hg.counts (n + utf8_byte_length s) ∙ regrouped n s t;
  }

  -- A writer that does nothing on a full counter.
  pub skip-Writes :
      {g : Writer} {t : Text}
      → Writes bound g t
      → Writes bound (λ w. if w.truncated then w else g w) t
  skip-Writes {g = g} {t = t} h = record {
    counts = λ n. unless_full g (utf8_byte_length t) n (λ room. h.counts n);
  }

  append_escaped-Writes : (t : Text) → Writes bound (append_escaped t) (escape_text t)
  unfolding append_escaped escape_text
  append_escaped-Writes [] = record {
    counts = λ n. ap (measured bound) (unfold utf8_byte_length in omega arith);
  }
  append_escaped-Writes (c ∷ cs) =
      both-Writes (append-Writes (escaped c)) (skip-Writes (append_escaped-Writes cs))

  pub append_json_string-Writes : (t : Text) → Writes bound (append_json_string t) (quoted t)
  unfolding append_json_string
  append_json_string-Writes t = skip-Writes (
      both-Writes (append-Writes (b'"' ∷ []))
        (both-Writes (append_escaped-Writes t) (append-Writes (b'"' ∷ []))))

  pub separated-Writes :
      (fs : List Writer) (ts : List Text)
      → AllWrite bound fs ts
      → Writes bound (separated fs) (join_commas ts)
  unfolding separated join_commas
  separated-Writes [] [] h = record {
    counts = λ n. ap (measured bound) (unfold utf8_byte_length in omega arith);
  }
  separated-Writes [] (t ∷ ts) h = elim h [ ]
  separated-Writes (f ∷ fs) [] h = elim h [ ]
  separated-Writes (f ∷ []) (t ∷ []) h = h.0
  separated-Writes (f ∷ []) (t ∷ u ∷ ts) h = elim h.1 [ ]
  separated-Writes (f ∷ g ∷ fs) (t ∷ []) h = elim h.1 [ ]
  separated-Writes (f ∷ g ∷ fs) (t ∷ u ∷ ts) h = both-Writes h.0 (
      skip-Writes
        (both-Writes (append-Writes (b',' ∷ [])) (separated-Writes (g ∷ fs) (u ∷ ts) h.1)))

  pub insert_writer-AllKeyed :
      (k : Text) (f : Writer) (t : Text) (fs : List KeyedWriter) (ts : List Written)
      → Writes bound f t
      → AllKeyed bound fs ts
      → AllKeyed bound (insert_writer (k, f) fs) (insert_entry (k, t) ts)
  unfolding insert_writer insert_entry
  insert_writer-AllKeyed k f t [] [] h all_ = (refl, h, tt)
  insert_writer-AllKeyed k f t [] (e ∷ ts) h all_ = elim all_ [ ]
  insert_writer-AllKeyed k f t (e ∷ fs) [] h all_ = elim all_ [ ]
  insert_writer-AllKeyed k f t ((j, g) ∷ fs) ((i, u) ∷ ts) h all_ =
      rw (sym all_.0) (elim (Bool-cases (units_before (utf16 j) (utf16 k))) [
        | inl before ↦ simp before (refl, all_.1, insert_writer-AllKeyed k f t fs ts h all_.2)
        | inr after ↦ simp after (refl, h, (refl, all_.1, all_.2))
      ])
