-- ===== src/Media/Info/Name.antt =====
-- `media_info::info`, the name that the log and the exceptions give, and `is_complete`.
use streaming.Prelude.{ℕ, ◌≡◌, refl, Bool, true, false, not, ◌&&◌, List, [], ◌∷◌, ◌++◌}
use streaming.Media.Info.{Info}

-- `info_` beside the other members.
pub record NamedInfo : Type 0 where
  pub fields : Info
  pub info : List ℕ

abbrev bar : List ℕ
bar = 124 ∷ []

abbrev is_empty : List ℕ → Bool
is_empty [] = true
is_empty (c ∷ cs) = false

unfoldable pub format : Info → List ℕ
format i = i.schema ++ (bar ++ (i.app ++ (bar ++ (i.vhost ++ (bar ++ i.stream_id)))))

-- The text is made once and kept.
unfoldable pub info : NamedInfo → List ℕ × NamedInfo
unfolding format
info n = by_text n.info
  where
    by_text : List ℕ → List ℕ × NamedInfo
    by_text [] = (format n.fields, record n { info = format n.fields })
    by_text (c ∷ cs) = (n.info, n)

unfoldable pub is_complete : Info → Bool
is_complete i =
    not (is_empty i.schema)
    && not (is_empty i.app)
    && not (is_empty i.vhost)
    && not (is_empty i.stream_id)

format_nonempty : (i : Info) → (c : ℕ) × (cs : List ℕ) × (format i ≡ c ∷ cs)
unfolding format
format_nonempty i = by_schema i.schema
  where
    by_schema :
        (s : List ℕ)
        → (c : ℕ) × (cs : List ℕ) × (s
              ++ (bar ++ (i.app ++ (bar ++ (i.vhost ++ (bar ++ i.stream_id)))))
            ≡ c ∷ cs)
    by_schema [] = (124, i.app ++ (bar ++ (i.vhost ++ (bar ++ i.stream_id))), refl)
    by_schema (c ∷ cs) =
        (c, cs ++ (bar ++ (i.app ++ (bar ++ (i.vhost ++ (bar ++ i.stream_id))))), refl)

-- Once `info` was asked for, it stays the same, whatever the members are changed to.
pub info_stale :
    (n : NamedInfo) (later : Info) → (info (record (info n).1 { fields = later })).0 ≡ (info n).0
unfolding info
info_stale n later = by_text n.info refl
  where
    by_text :
        (t : List ℕ) → n.info ≡ t → (info (record (info n).1 { fields = later })).0 ≡ (info n).0
    by_text [] e = let (c, cs, full) = format_nonempty n.fields in rw (e, full) refl
    by_text (c ∷ cs) e = rw e refl
