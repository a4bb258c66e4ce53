-- ===== src/Metrics/Empty.antt =====
-- When the text of the metrics can be made.
use mathlib.Core.List.{Permᴰ}
use ai_solo_coder_task_a.Metrics.{
  HistogramData, Meta, MetricsRegistry, at_key, bounds, new_histogram, new_registry,
}
use ai_solo_coder_task_a.Metrics.Calls.{
  Call, HasBuckets, IsCons, Valid, all_called, all_called-Valid, any_observes, at_key-All,
  no_entries,
}
use ai_solo_coder_task_a.Metrics.Serialize.{
  Printing, Stream, print_buckets, print_end, print_histogram, print_histograms, print_scalars,
  serialize, substr_1,
}
use ai_solo_coder_task_a.Outcome.{out_of_range, returned, thrown}
use ai_solo_coder_task_a.Prelude.{
  All, List, String, [], false, false≢true, refl, subst, sym, true, ℕ, ◌||◌, ◌∙◌, ◌∷◌, ◌≡◌,
}

module _ (p : Printing) where
  perm-All :
      (P : String × Meta → Type 0) {xs ys : List (String × Meta)}
      → Permᴰ xs ys
      → All P xs
      → All P ys
  perm-All P Permᴰ.nil h = h
  perm-All P (Permᴰ.cons e d) (h, hs) = (subst P e h, perm-All P d hs)
  perm-All P (Permᴰ.swap e₁ e₂) (h₁, (h₂, hs)) = (subst P e₂ h₂, (subst P e₁ h₁, hs))
  perm-All P (Permᴰ.trans d₁ d₂) h = perm-All P d₂ (perm-All P d₁ h)

  perm-no_entries : {xs ys : List (String × Meta)} → Permᴰ xs ys → no_entries xs ≡ no_entries ys
  unfolding no_entries
  perm-no_entries Permᴰ.nil = refl
  perm-no_entries (Permᴰ.cons e d) = refl
  perm-no_entries (Permᴰ.swap e₁ e₂) = refl
  perm-no_entries (Permᴰ.trans d₁ d₂) = perm-no_entries d₁ ∙ perm-no_entries d₂

  substr_1-empty : {labels : String} → labels ≡ "" → substr_1 labels ≡ thrown out_of_range
  unfolding substr_1
  substr_1-empty e = rw e

  print_buckets-thrown :
      (meta : Meta) (buckets : List ℕ) (s : Stream)
      → meta.labels ≡ ""
      → IsCons buckets
      → print_buckets p meta 0 bounds buckets s ≡ thrown out_of_range
  unfolding print_buckets
  print_buckets-thrown meta [] s e q = absurd q
  print_buckets-thrown meta (bucket ∷ buckets) s e q = rw (substr_1-empty e)

  print_histogram-thrown :
      (meta : Meta) (h : HistogramData) (s : Stream)
      → meta.labels ≡ ""
      → HasBuckets h
      → print_histogram p meta h s ≡ thrown out_of_range
  unfolding print_histogram
  print_histogram-thrown meta h s e q = rw (print_buckets-thrown meta h.buckets _ e q)

  print_histograms-thrown :
      (histograms : List (String × HistogramData)) (metas : List (String × Meta)) (s : Stream)
      → no_entries metas ≡ false
      → All (λ entry. entry.1.labels ≡ "") metas
      → All (λ entry. HasBuckets entry.1) histograms
      → print_histograms p histograms metas s ≡ thrown out_of_range
  unfolding print_histograms no_entries
  print_histograms-thrown histograms [] s e hs qs = absurd (false≢true (sym e))
  print_histograms-thrown histograms ((key, meta) ∷ metas) s e (h, hs) qs = rw (
      print_histogram-thrown meta (at_key key new_histogram histograms) _ h
        (at_key-All HasBuckets key new_histogram histograms tt qs))

  print_histograms-returned :
      (histograms : List (String × HistogramData)) (metas : List (String × Meta)) (s : Stream)
      → no_entries metas ≡ true
      → print_histograms p histograms metas s ≡ returned s
  unfolding print_histograms no_entries
  print_histograms-returned histograms [] s e = refl
  print_histograms-returned histograms (entry ∷ metas) s e = absurd (false≢true e)

  serialize-thrown :
      (m : MetricsRegistry)
      → Permᴰ m.hist_meta (p.arrange m.hist_meta)
      → Valid true m
      → serialize p m ≡ thrown out_of_range
  unfolding serialize Valid
  serialize-thrown m order (h, hs, ps) = rw (
      print_histograms-thrown m.histograms (p.arrange m.hist_meta) _
        (sym (perm-no_entries order) ∙ h) (perm-All (λ entry. entry.1.labels ≡ "") order hs) ps)

  serialize-returned :
      (m : MetricsRegistry)
      → Permᴰ m.hist_meta (p.arrange m.hist_meta)
      → Valid false m
      → (shown : String) × (serialize p m ≡ returned shown)
  unfolding serialize Valid
  serialize-returned m order (h, hs, ps) = (
    print_end p (print_scalars p m),
    rw (
        print_histograms-returned m.histograms (p.arrange m.hist_meta) _
          (sym (perm-no_entries order) ∙ h)),
  )

  -- In whatever order the maps are walked through, after any calls of the record functions and of `main` `serialize`
  -- throws the exception of `substr(1)` if one of the calls observed a histogram, then and ever after,
  -- and returns a text otherwise.
  pub serialize-calls :
      (calls : List Call)
      → ((metas : List (String × Meta)) → Permᴰ metas (p.arrange metas))
      → (any_observes calls ≡ true
          → serialize p (all_called calls new_registry) ≡ thrown out_of_range)
        × (any_observes calls ≡ false
            → (shown : String) × (serialize p (all_called calls new_registry) ≡ returned shown))
  unfolding Valid no_entries
  serialize-calls calls arranged =
      let r = all_called calls new_registry in
      let valid = all_called-Valid calls false new_registry (refl, tt, tt) in
      (
        λ e. serialize-thrown r (arranged r.hist_meta) (subst (λ b. Valid (b || false) r) e valid),
        λ e.
            serialize-returned r (arranged r.hist_meta) (subst (λ b. Valid (b || false) r) e valid),
      )
