-- ===== src/Admin/Consistent/Reads.antt =====
-- What the admin service reads before it writes, as triples.
use mathlib.Core.Path.{subst}
use mathlib.Core.Option.{some-injective}
use nebraska.Base.{String, ◌≡◌, refl, sym, ap, ◌∙◌, false, Option, none, some, List}
use nebraska.Base.{arith, ◌==◌, eq_iff, not, eqb}
use nebraska.Base.Exec.{Result, ok}
use nebraska.Types.{text, Package, Channel, invalid_package, arch_mismatch, blacklisted_channel}
use nebraska.Db.{World, ChannelRow, count_where}
use nebraska.Db.Keeps.{Keeps-optional, keeps_rules}
use nebraska.Db.Runs.{Runs, Runs-pure, Runs-raise, Runs-if, Runs-query, Runs-bind, Runs-Keeps}
use nebraska.Reads.Groups.{get_package, get_channel, get_flatcar_action, row_or_none}
use nebraska.Runtime.Updates.{contains}
use nebraska.Runtime.Sound.Handlers.{get_package-Keeps}
use nebraska.Admin.Channels.{check_package, validate_package, validated}
use nebraska.Admin.Floors.{is_floor_row, is_package_floor_for_channel}
use nebraska.Admin.Consistent.{channel_at, package_at}

-- A channel as it was read.
pub record ReadChannel (k : String) (c : Channel) (w : World) : Type 0 where
  pub row : ChannelRow
  pub found : channel_at k w ≡ some row
  pub id : c.id ≡ row.id
  pub points : c.package_id ≡ row.package_id
  pub app : c.application_id ≡ row.application_id
  pub arch : c.arch ≡ row.arch

-- A package as it was read.
pub record ReadPackage (k : String) (p : Package) (w : World) : Type 0 where
  pub row : Package
  pub found : package_at k w ≡ some row
  pub app : p.application_id ≡ row.application_id
  pub arch : p.arch ≡ row.arch
  pub listed : p.channels_blacklist ≡ row.channels_blacklist

row_found :
    {A : Type 0} (o : Option A) {a : A} → ◌≡◌ {A = Result _ A} (row_or_none o) (ok a) → o ≡ some a
row_found none h = absurd (cc)
row_found (some a) h = cc

module _ {E P : World → Type 0} (x : (w : World) → P w → E w) where
  pub get_channel-Runs : (k : String) → Runs E P (get_channel k) (λ c w. P w × ReadChannel k c w)
  unfolding get_channel
  get_channel-Runs k =
      Runs-bind {R = λ row w. P w × (channel_at k w ≡ some row)} _ _
        (Runs-query _ (λ w row h e. (h, row_found (channel_at k w) e)) x)
        (λ row.
          Runs-bind {R = λ p w. P w × (channel_at k w ≡ some row)} _ _
            (Runs-Keeps E _ (Keeps-optional _ (get_package-Keeps row.package_id)) (λ w h. x w h.0))
            (λ p. Runs-pure _ (λ w h. (
              h.0,
              record { row = row; found = h.1; id = refl; points = refl; app = refl; arch = refl },
            ))))

  pub get_package-Runs :
      (k : String) → Runs E P (get_package (some k)) (λ p w. P w × ReadPackage k p w)
  unfolding get_package get_flatcar_action
  get_package-Runs k =
      Runs-bind {R = λ row w. P w × (package_at k w ≡ some row)} _ _
        (Runs-query _ (λ w row h e. (h, row_found (package_at k w) e)) x)
        (λ row.
          Runs-bind {R = λ a w. P w × (package_at k w ≡ some row)} _ _
            (Runs-Keeps E _ (search keeps_rules) (λ w h. x w h.0))
            (λ a.
              Runs-bind {R = λ u w. P w × (package_at k w ≡ some row)} _ _
                (Runs-Keeps E _ (search keeps_rules) (λ w h. x w h.0))
                (λ u. Runs-pure _ (λ w h. (
                  h.0,
                  record { row = row; found = h.1; app = refl; arch = refl; listed = refl },
                )))))

  pub is_floor-Runs :
      (i k : String)
      → Runs E P
          (is_package_floor_for_channel i k)
          (λ b w. P w × (b ≡ false → count_where (is_floor_row k i) w.floors ≡ 0))
  unfolding is_package_floor_for_channel
  is_floor-Runs i k =
      Runs-bind {R = λ n w. P w × (count_where (is_floor_row k i) w.floors ≡ n)} _ _
        (Runs-query _ (λ w n h e. (h, cc)) x)
        (λ n. Runs-pure _ (λ w h. (h.0, λ z. ground (arith, h.1, z))))

-- The package that a channel is to point to fits it.
abbrev pub Chosen : Option String → Channel → World → Type 0
Chosen package_id c w =
    (j : String) (p : Package)
    → (j == "") ≡ false
    → package_id ≡ some j
    → package_at j w ≡ some p
    → (c.arch ≡ p.arch)
      × (c.application_id ≡ p.application_id)
      × (contains p.channels_blacklist c.id ≡ false)

checked_fits :
    (c : Channel) (k : String) (p : Package) (w : World)
    → p.application_id ≡ c.application_id
    → p.arch ≡ c.arch
    → contains p.channels_blacklist c.id ≡ false
    → ReadPackage k p w
    → (q : Package) → package_at k w ≡ some q
    → (c.arch ≡ q.arch)
      × (c.application_id ≡ q.application_id)
      × (contains q.channels_blacklist c.id ≡ false)
checked_fits c k p w app arch listed r q e =
    let same : r.row ≡ q = some-injective _ _ (sym r.found ∙ e) in
    (
      sym arch ∙ r.arch ∙ ap (λ (x : Package). x.arch) same,
      sym app ∙ r.app ∙ ap (λ (x : Package). x.application_id) same,
      ap (λ (l : List String). contains l c.id)
            (sym (r.listed ∙ ap (λ (x : Package). x.channels_blacklist) same))
          ∙ listed,
    )

module _ {E P : World → Type 0} (x : (w : World) → P w → E w) (c : Channel) where
  check_package-Runs :
      (k : String) (p : Package)
      → Runs E
          (λ w. P w × ReadPackage k p w)
          (check_package c.id c.application_id c.arch p)
          (λ q w.
            P w
            × ((q : Package)
                → package_at k w ≡ some q
                → (c.arch ≡ q.arch)
                  × (c.application_id ≡ q.application_id)
                  × (contains q.channels_blacklist c.id ≡ false)))
  unfolding check_package
  check_package-Runs k p =
      Runs-if (not (p.application_id == c.application_id))
        (λ e. Runs-raise invalid_package (λ w h. x w h.0))
        (λ app.
          Runs-if (not (eqb p.arch c.arch)) (λ e. Runs-raise arch_mismatch (λ w h. x w h.0))
            (λ arch.
              Runs-if (contains p.channels_blacklist c.id)
                (λ e. Runs-raise blacklisted_channel (λ w h. x w h.0))
                (λ listed. Runs-pure p (λ w h. (
                  h.0,
                  checked_fits c k p w
                      (ground (arith, app, eq_iff p.application_id c.application_id))
                      (ground (arith, arch)) listed h.1,
                )))))

  pub validated-Runs :
      (package_id : Option String)
      → Runs E P
          (validated package_id c.id c.application_id c.arch)
          (λ o w. P w × Chosen package_id c w)
  unfolding validated validate_package
  validated-Runs package_id =
      Runs-if (text package_id == "")
        (λ empty. Runs-pure none (λ w h. (
          h,
          λ j p n e f.
              absurd
                (ground (arith, empty, n, ap text e, eq_iff (text package_id) "", eq_iff j "")),
        )))
        (λ named.
          Runs-bind _ _
            (Runs-bind _ _ (get_package-Runs x (text package_id))
              (check_package-Runs (text package_id)))
            (λ p. Runs-pure (some p) (λ w h. (
              h.0,
              λ j q n e f. h.1 q (subst (λ z. package_at z w ≡ some q) (sym (ap text e)) f),
            ))))
