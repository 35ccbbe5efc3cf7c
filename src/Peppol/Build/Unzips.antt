-- ===== src/Peppol/Build/Unzips.antt =====
-- The last loop of `process` of as4/core/message.py on the parts that `get_user_message` of
-- as4/profiles/peppol/message.py declares.
use as_lib.Base.{
  arith, ltb, false, ℕ, ◌+◌, ◌≤◌, ◌≡◌, refl, String, ◌<>◌, true, some, [], ◌∷◌, length, map,
  ==_refl, string_eq, option_eq,
}
use as_lib.Base.Dict
use as_lib.Base.Dict.{Dict}
use as_lib.Base.Prefix.{remove_prefix-append}
use as_lib.Base.Text.{remove_prefix}
use as_lib.Platform.{Bytes, Crypto}
use as_lib.Outcome.{ok}
use as_lib.Documents.{compression_type, decompress}
use as_lib.Message.Process.{process_part, process_parts, process_round}
use as_lib.Peppol.Build.{Supplies, part_of}
use as_lib.Peppol.Build.Opens.{get-attached, nonempty-cid}

-- `gzip` reads back what it compressed, if that is no longer than it is asked for.
abbrev pub Unzips : Crypto → Supplies → ℕ → Type 0
Unzips c s maximum_size =
    (b : Bytes)
    → length b ≤ maximum_size
    → c.gzip_read (s.gzip_compress b) (maximum_size + 1) ≡ some b

module _ (c : Crypto) (s : Supplies) (maximum_size : ℕ) (unzips : Unzips c s maximum_size) where
  decompress-part_of :
      (entry : String × String) (b : Bytes)
      → length b ≤ maximum_size
      → decompress c (part_of entry).part_properties (s.gzip_compress b) maximum_size ≡ ok b
  unfolding decompress compression_type part_of string_eq option_eq
  decompress-part_of entry b h =
      let bounded : ltb maximum_size (length b) ≡ false = ground arith in
      rw (unzips b h, bounded) refl

  process_part-sealed :
      (entry : String × String) (b sealed : Bytes)
      → length b ≤ maximum_size
      → process_part c maximum_size
          (part_of entry)
          ("cid:" <> entry.0)
          ((entry.0, sealed) ∷ [])
          ((entry.0, s.gzip_compress b) ∷ [])
        ≡ (ok tt, (entry.0, b) ∷ [])
  unfolding process_part Dict.has_key Dict.get Dict.put
  process_part-sealed entry b sealed h =
      let id = remove_prefix ("cid:" <> entry.0) "cid:" in
      let attached : Dict.has_key ((entry.0, sealed) ∷ []) id ≡ true =
        rw (Dict.has_key, get-attached entry.0 sealed) refl in
      let written : Dict.put ((entry.0, s.gzip_compress b) ∷ []) id b ≡ (entry.0, b) ∷ [] =
        rw (remove_prefix-append "cid:" entry.0, Dict.put, ==_refl entry.0) refl in
      rw
        (
          process_part,
          attached,
          get-attached entry.0 (s.gzip_compress b),
          decompress-part_of entry b h,
          written,
        )
        refl

  -- The loop over the parts of a built message turns what was decrypted into what was sent.
  pub process_parts-part_of :
      (entries : Dict String) (entry : String × String) (b sealed : Bytes)
      → entries ≡ entry ∷ []
      → length b ≤ maximum_size
      → process_parts c maximum_size
          (map part_of entries)
          ((entry.0, sealed) ∷ [])
          ((entry.0, s.gzip_compress b) ∷ [])
        ≡ (ok tt, (entry.0, b) ∷ [])
  unfolding process_parts process_round part_of
  process_parts-part_of entries entry b sealed one h =
      rw
        (
          one,
          process_parts,
          process_round,
          nonempty-cid entry.0,
          process_part-sealed entry b sealed h,
        )
        refl
