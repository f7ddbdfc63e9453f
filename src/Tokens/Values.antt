-- ===== src/Tokens/Values.antt =====
-- packages/core/src/heuristic-token-counter.ts and packages/protocol/src/canonical-json.ts: a JSON value
-- as it is counted and as it is written.
use ctrl_zebra.Prelude.{
  ℕ, suc, ◌+◌, ◌≡◌, ◌≤◌, max, refl, sym, arith, true, false, List, [], ◌∷◌, map, ltb,
}
use ctrl_zebra.Text.{Text}
use ctrl_zebra.Messages.{
  JsonValue, JsonItems, JsonEntries, null, boolean, number, text, array, object, nil, cons, end,
  entry,
}
use ctrl_zebra.Canonical.{
  Written, sort_entries, write_entry, canonicalize_json, item_texts, entry_texts,
}
use ctrl_zebra.Tokens.{
  Writer, KeyedWriter, sort_writers, write_properties, guarded, write_json_value, item_writers,
  entry_writers, max_serialization_depth,
}
use ctrl_zebra.Tokens.Measured.{
  Writes, AllWrite, AllKeyed, append-Writes, both-Writes, skip-Writes, append_json_string-Writes,
  separated-Writes, insert_writer-AllKeyed,
}

-- How deep arrays and objects stand in each other.
unfoldable mutual
  pub nesting : JsonValue → ℕ
  nesting (array xs) = nesting_items xs
  nesting (object es) = nesting_entries es
  nesting (text t) = 0
  nesting (number n) = 0
  nesting (boolean b) = 0
  nesting null = 0

  pub nesting_items : JsonItems → ℕ
  nesting_items nil = 0
  nesting_items (cons x xs) = max (suc (nesting x)) (nesting_items xs)

  pub nesting_entries : JsonEntries → ℕ
  nesting_entries end = 0
  nesting_entries (entry k v es) = max (suc (nesting v)) (nesting_entries es)

module _ (bound : ℕ) where
  sort_writers-AllKeyed :
      (fs : List KeyedWriter) (ts : List Written)
      → AllKeyed bound fs ts
      → AllKeyed bound (sort_writers fs) (sort_entries ts)
  unfolding sort_writers sort_entries
  sort_writers-AllKeyed [] [] all_ = tt
  sort_writers-AllKeyed [] (e ∷ ts) all_ = elim all_ [ ]
  sort_writers-AllKeyed (e ∷ fs) [] all_ = elim all_ [ ]
  sort_writers-AllKeyed ((k, f) ∷ fs) ((j, t) ∷ ts) all_ = rw (sym all_.0) (
      insert_writer-AllKeyed k f t (sort_writers fs) (sort_entries ts) all_.1
        (sort_writers-AllKeyed fs ts all_.2))

  write_properties-AllWrite :
      (fs : List KeyedWriter) (ts : List Written)
      → AllKeyed bound fs ts
      → AllWrite bound (write_properties fs) (map write_entry ts)
  unfolding write_properties
  write_properties-AllWrite [] [] all_ = tt
  write_properties-AllWrite [] (e ∷ ts) all_ = elim all_ [ ]
  write_properties-AllWrite (e ∷ fs) [] all_ = elim all_ [ ]
  write_properties-AllWrite ((k, f) ∷ fs) ((j, t) ∷ ts) all_ = rw (sym all_.0) (
    both-Writes (append_json_string-Writes k) (both-Writes (append-Writes (b':' ∷ [])) all_.1),
    write_properties-AllWrite fs ts all_.2,
  )

  guarded-Writes :
      (depth : ℕ) {f : Writer} {t : Text}
      → depth ≤ max_serialization_depth
      → Writes bound f t
      → Writes bound (guarded depth f) t
  guarded-Writes depth {f = f} {t = t} shallow h =
      skip-Writes (record { counts = λ n. simp below (h.counts n) })
    where
      below : ltb max_serialization_depth depth ≡ false
      below = ground arith

  mutual
    unfolding write_json_value canonicalize_json nesting

    -- A value that is not nested too deep is counted as its canonical text.
    pub write_json_value-Writes :
        (number_text : ℕ → Text) (depth : ℕ) (v : JsonValue)
        → depth + nesting v ≤ max_serialization_depth
        → Writes bound (write_json_value number_text depth v) (canonicalize_json number_text v)
    write_json_value-Writes number_text depth null h =
        guarded-Writes depth (omega arith) (append-Writes _)
    write_json_value-Writes number_text depth (boolean true) h =
        guarded-Writes depth (omega arith) (append-Writes _)
    write_json_value-Writes number_text depth (boolean false) h =
        guarded-Writes depth (omega arith) (append-Writes _)
    write_json_value-Writes number_text depth (number n) h =
        guarded-Writes depth (omega arith) (append-Writes (number_text n))
    write_json_value-Writes number_text depth (text t) h =
        guarded-Writes depth (omega arith) (append_json_string-Writes t)
    write_json_value-Writes number_text depth (array xs) h = guarded-Writes depth (omega arith) (
        both-Writes (append-Writes (b'[' ∷ [])) (
          both-Writes
            (separated-Writes (item_writers number_text (suc depth) xs) (item_texts number_text xs)
              (item_writers-AllWrite number_text depth xs h))
            (append-Writes (b']' ∷ []))))
    write_json_value-Writes number_text depth (object es) h = guarded-Writes depth (omega arith) (
        both-Writes (append-Writes (b'{' ∷ [])) (
          both-Writes
            (separated-Writes _ (map write_entry (sort_entries (entry_texts number_text es))) (
              write_properties-AllWrite _ (sort_entries (entry_texts number_text es)) (
                sort_writers-AllKeyed (entry_writers number_text (suc depth) es)
                  (entry_texts number_text es) (entry_writers-AllKeyed number_text depth es h))))
            (append-Writes (b'}' ∷ []))))

    item_writers-AllWrite :
        (number_text : ℕ → Text) (depth : ℕ) (xs : JsonItems)
        → depth + nesting_items xs ≤ max_serialization_depth
        → AllWrite bound (item_writers number_text (suc depth) xs) (item_texts number_text xs)
    item_writers-AllWrite number_text depth nil h = tt
    item_writers-AllWrite number_text depth (cons x xs) h = (
      write_json_value-Writes number_text (suc depth) x (omega arith),
      item_writers-AllWrite number_text depth xs (omega arith),
    )

    entry_writers-AllKeyed :
        (number_text : ℕ → Text) (depth : ℕ) (es : JsonEntries)
        → depth + nesting_entries es ≤ max_serialization_depth
        → AllKeyed bound (entry_writers number_text (suc depth) es) (entry_texts number_text es)
    entry_writers-AllKeyed number_text depth end h = tt
    entry_writers-AllKeyed number_text depth (entry k v es) h = (
      refl,
      write_json_value-Writes number_text (suc depth) v (omega arith),
      entry_writers-AllKeyed number_text depth es (omega arith),
    )
