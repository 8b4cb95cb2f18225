-- ===== src/Admin/Consistent/Floors.antt =====
-- Marking a package as a floor keeps channels and packages consistent.
use mathlib.Core.Option.{some-injective, none-ne-some}
use nebraska.Base.{String, ◌≡◌, refl, sym, ap, ◌∙◌, Bool, true, false, Option, none, some}
use nebraska.Base.{arith, ◌==◌, eq_iff, not, eqb, ltb}
use nebraska.Types.{
  Package, invalid_package, arch_mismatch, invalid_application_or_group, package_blacklisted,
}
use nebraska.Db.{World, ChannelRow}
use nebraska.Db.Keeps.{quiet}
use nebraska.Db.Runs.{
  Runs, Runs-pure, Runs-raise, Runs-if, Runs-query, Runs-bind, Runs-exec, Runs-optional,
}
use nebraska.Db.Finds.{find-key}
use nebraska.Runtime.Updates.{contains}
use nebraska.Admin.Floors.{
  both, listings_of, channel_with_package, listings, is_package_blacklisted_for_channel, put_floor,
  check_floor, insert_floor, add_channel_package_floor,
}
use nebraska.Admin.Consistent.{FitsFor, channel_at, package_at, Consistent}
use nebraska.Admin.Consistent.Rows.{put_floor-Consistent}
use nebraska.Admin.Consistent.Edits.{Kept}

joined_rows :
    (a : Option ChannelRow) (b : Option Package) {c : ChannelRow} {p : Package}
    → both a b ≡ some (c, p)
    → (a ≡ some c) × (b ≡ some p)
joined_rows none b h = absurd (none-ne-some _ h)
joined_rows (some d) none h = absurd (none-ne-some _ h)
joined_rows (some d) (some q) h = (cc, cc)

not_counted :
    (k : String) (o : Option Package) {p : Package}
    → ltb 0 (listings_of k o) ≡ false
    → o ≡ some p
    → contains p.channels_blacklist k ≡ false
not_counted k none h e = absurd (none-ne-some _ e)
not_counted k (some q) h e =
    ap (λ (x : Package). contains x.channels_blacklist k) (sym (some-injective _ _ e))
    ∙ ground (arith, h)

-- What the query of `AddChannelPackageFloor` found: the channel and the package, or nothing.
abbrev FoundRows : String → String → Option (ChannelRow × Package) → World → Type 0
FoundRows k i none w = Unit
FoundRows k i (some (c, p)) w = (channel_at k w ≡ some c) × (package_at i w ≡ some p)

found_rows :
    (k i : String) (w : World) (o : Option (ChannelRow × Package))
    → channel_with_package k i w ≡ o
    → FoundRows k i o w
unfolding channel_with_package
found_rows k i w none h = tt
found_rows k i w (some (c, p)) h = joined_rows (channel_at k w) (package_at i w) h

-- A channel and a package of one architecture and application.
abbrev Matches : String → String → World → Type 0
Matches k i w =
    (c : ChannelRow) × (p : Package) × (channel_at k w ≡ some c)
    × (package_at i w ≡ some p)
    × (c.arch ≡ p.arch)
    × (c.application_id ≡ p.application_id)

check_floor-Runs :
    (k i : String) (o : Option (ChannelRow × Package))
    → Runs Consistent
        (λ w. Consistent w × FoundRows k i o w)
        (check_floor o)
        (λ u w. Consistent w × Matches k i w)
unfolding check_floor
check_floor-Runs k i none = Runs-raise invalid_package (λ w h. h.0)
check_floor-Runs k i (some (c, p)) =
    Runs-if (not (eqb c.arch p.arch)) (λ e. Runs-raise arch_mismatch (λ w h. h.0))
      (λ arch.
        Runs-if (not (c.application_id == p.application_id))
          (λ e. Runs-raise invalid_application_or_group (λ w h. h.0))
          (λ app. Runs-pure tt (λ w h. (
            h.0,
            (
              c,
              p,
              h.1.0,
              h.1.1,
              ground (arith, arch),
              ground (arith, app, eq_iff c.application_id p.application_id),
            ),
          ))))

-- A package that is not listed may become a floor of a channel that it matches.
unlisted_fits :
    (k i : String) (w : World)
    → Matches k i w
    → ltb 0 (listings i k w) ≡ false
    → (c : ChannelRow) (p : Package) → channel_at k w ≡ some c
    → package_at i w ≡ some p
    → FitsFor c p
unfolding listings
unlisted_fits k i w (d, q, at_d, at_q, arch, app) n c p here there =
    let same_c : d ≡ c = some-injective _ _ (sym at_d ∙ here) in
    let same_p : q ≡ p = some-injective _ _ (sym at_q ∙ there) in
    let id = find-key (λ x. x.id) k w.channels here in
    let unlisted : contains p.channels_blacklist k ≡ false =
      not_counted k (package_at i w) n there in
    record {
      arch =
          ap (λ (x : ChannelRow). x.arch) (sym same_c) ∙ arch ∙ ap (λ (x : Package). x.arch) same_p;
      app =
          ap (λ (x : ChannelRow). x.application_id) (sym same_c)
          ∙ app
          ∙ ap (λ (x : Package). x.application_id) same_p;
      allowed = ap (λ z. contains p.channels_blacklist z) id ∙ unlisted;
    }

insert_floor-Runs :
    (k i : String) (reason : Option String) (b : Bool)
    → Runs Consistent
        (λ w. (Consistent w × Matches k i w) × (ltb 0 (listings i k w) ≡ b))
        (insert_floor k i reason b)
        (λ u. Consistent)
unfolding insert_floor put_floor
insert_floor-Runs k i reason true = Runs-raise package_blacklisted (λ w h. h.0.0)
insert_floor-Runs k i reason false =
    Runs-exec (put_floor k i reason)
      (λ w h.
        put_floor-Consistent (quiet w) h.0.0 k i reason (unlisted_fits k i (quiet w) h.0.1 h.1))
      (λ w h. h.0.0)

pub add_floor-Runs :
    (k i : String) (reason : Option String) → Kept (add_channel_package_floor k i reason)
unfolding add_channel_package_floor is_package_blacklisted_for_channel channel_with_package listings
add_floor-Runs k i reason =
    Runs-bind {R = λ o w. Consistent w × FoundRows k i o w} _ _
      (Runs-optional (channel_with_package k i)
        (λ w h. (h, found_rows k i (quiet w) (channel_with_package k i w) refl)) (λ w h. h))
      (λ o. Runs-bind _ _ (check_floor-Runs k i o) (λ u.
        Runs-bind _ _
          (Runs-bind {R = λ n w. (Consistent w × Matches k i w) × (listings i k w ≡ n)} _ _
            (Runs-query _ (λ w n h e. (h, cc)) (λ w h. h.0))
            (λ n. Runs-pure _ (λ w h. (h.0, ap (ltb 0) h.1))))
          (λ b. insert_floor-Runs k i reason b)))
