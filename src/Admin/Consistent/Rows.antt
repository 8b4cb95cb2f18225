-- ===== src/Admin/Consistent/Rows.antt =====
-- The writes of the admin service, one by one, on consistent tables.
use mathlib.Core.Path.{subst}
use nebraska.Base.{
  String, ◌≡◌, refl, ◌≢◌, sym, ap, ◌∙◌, Bool, true, false, Option, some, List, [], ◌∷◌, ◌++◌,
}
use nebraska.Base.{arith, inl, inr, ◌==◌, eq_iff, not, ◌||◌, if◌then◌else◌, Bool-cases}
use nebraska.Types.{text, Package, Channel}
use nebraska.Db.{World, ChannelRow, FloorRow, update_where, select, count_where}
use nebraska.Db.Finds.{find-update, find-select, find-key, In-select, In-count}
use nebraska.Runtime.Updates.{contains}
use nebraska.Admin.Channels.{update_channel_row, without_channel}
use nebraska.Admin.Floors.{is_floor_row, put_floor}
use nebraska.Admin.Blacklists.{insert_listing, delete_listing}
use nebraska.Admin.Packages.{update_package_row, without_package}
use nebraska.Admin.Consistent.Changes.{
  unpointed_fits, unpointed, renamed_fits, repointed, In-upsert, kept_keys,
}
use nebraska.Admin.Consistent.{FitsFor, channel_at, package_at, Consistent}

-- A change of packages that keeps what channels look at, and lists no more channels.
pub record Milder (f : Package → Package) : Type 0 where
  pub id : (p : Package) → (f p).id ≡ p.id
  pub arch : (p : Package) → (f p).arch ≡ p.arch
  pub app : (p : Package) → (f p).application_id ≡ p.application_id
  pub listed :
      (p : Package) (k : String)
      → contains p.channels_blacklist k ≡ false
      → contains (f p).channels_blacklist k ≡ false

changed_if :
    (c : ChannelRow) (p : Package) (f : Package → Package) (b : Bool)
    → Milder f
    → FitsFor c p
    → FitsFor c (if b then f p else p)
changed_if c p f true m h = record {
  arch = h.arch ∙ sym (m.arch p);
  app = h.app ∙ sym (m.app p);
  allowed = m.listed p c.id h.allowed;
}
changed_if c p f false m h = h

module _ (w : World) (h : Consistent w) where
  pub packages_changed :
      (t : Package → Bool) (f : Package → Package)
      → Milder f
      → Consistent (record w { packages = update_where t f w.packages })
  packages_changed t f m = record {
    points = λ k j c p n here to there.
        let (q, found, e) = find-update (λ x. x.id) j t f w.packages m.id there in
        subst (FitsFor c) (sym e) (changed_if c q f (t q) m (h.points k j c q n here to found));
    floors = λ r c p i here there.
        let (q, found, e) = find-update (λ x. x.id) r.package_id t f w.packages m.id there in
        subst (FitsFor c) (sym e) (changed_if c q f (t q) m (h.floors r c q i here found));
  }

  pub floors_taken : (t : FloorRow → Bool) → Consistent (record w { floors = select t w.floors })
  floors_taken t = record {
    points = h.points;
    floors = λ r c p i here there. h.floors r c p (In-select t w.floors i).0 here there;
  }

contains-append :
    (l : List String) (k x : String) → contains (l ++ (k ∷ [])) x ≡ (contains l x || k == x)
unfolding contains
contains-append [] k x = ground arith
contains-append (y ∷ l) k x = ground (arith, contains-append l k x)

contains-select :
    (t : String → Bool) (l : List String) (x : String)
    → contains l x ≡ false
    → contains (select t l) x ≡ false
unfolding contains select
contains-select t [] x h = refl
contains-select t (y ∷ l) x h = ground (arith, contains-select t l x)

pub Milder-delete :
    (t : String → Bool)
    → Milder (λ p. record p { channels_blacklist = select t p.channels_blacklist })
Milder-delete t = record {
  id = λ p. refl;
  arch = λ p. refl;
  app = λ p. refl;
  listed = λ p k h. contains-select t p.channels_blacklist k h;
}

module _ (w : World) (h : Consistent w) where
  pub update_package_row-Consistent :
      (p : Package) (labels : Option (List (String × String)))
      → Consistent (update_package_row p labels w).1
  unfolding update_package_row
  update_package_row-Consistent p labels =
      packages_changed w h _ _
        (record { id = λ q. refl; arch = λ q. refl; app = λ q. refl; listed = λ q k n. n })

  pub delete_listing-Consistent : (i k : String) → Consistent (delete_listing i k w)
  unfolding delete_listing
  delete_listing-Consistent i k = packages_changed w h _ _ (Milder-delete _)

  -- A package may be kept from a channel that neither points to it nor has it as a floor.
  module _ (i k : String)
      (free : (c : ChannelRow) → channel_at k w ≡ some c → text c.package_id ≢ i)
      (unfloored : count_where (is_floor_row k i) w.floors ≡ 0) where
    listed_fits :
        (c : ChannelRow) (p : Package)
        → FitsFor c p
        → (p.id ≡ i → c.id ≢ k)
        → FitsFor c (
            if p.id == i
            then record p { channels_blacklist = p.channels_blacklist ++ (k ∷ []) }
            else p)
    listed_fits c p f apart = elim (Bool-cases (p.id == i)) [
      | inl here ↦ rw here (record {
        arch = f.arch;
        app = f.app;
        allowed = ground (
          arith,
          contains-append p.channels_blacklist k c.id,
          f.allowed,
          here,
          eq_iff p.id i,
          eq_iff k c.id,
          apart,
        );
      })
      | inr there ↦ rw there f
    ]

    pub insert_listing-Consistent : Consistent (insert_listing i k w)
    unfolding insert_listing
    insert_listing-Consistent = record {
      points = λ r j c p n here to there.
          let (q, found, e) = find-update (λ x. x.id) j _ _ w.packages (λ x. refl) there in
          subst (FitsFor c) (sym e) (
            listed_fits c q (h.points r j c q n here to found) (λ same at_k.
              let at = sym (find-key (λ x. x.id) r w.channels here) ∙ at_k in
              free c (subst (λ z. channel_at z w ≡ some c) at here)
                (ap text to ∙ sym (find-key (λ x. x.id) j w.packages found) ∙ same)));
      floors = λ r c p m here there.
          let (q, found, e) =
            find-update (λ x. x.id) r.package_id _ _ w.packages (λ x. refl) there in
          subst (FitsFor c) (sym e) (
            listed_fits c q (h.floors r c q m here found) (λ same at_k.
              let a = sym (find-key (λ x. x.id) r.channel_id w.channels here) ∙ at_k in
              let b = sym (find-key (λ x. x.id) r.package_id w.packages found) ∙ same in
              let apart = In-count (is_floor_row k i) w.floors unfloored m in
              ground (arith, a, b, apart, eq_iff r.channel_id k, eq_iff r.package_id i)));
    }

  pub without_package-Consistent : (i : String) → Consistent (without_package i w)
  unfolding without_package
  without_package-Consistent i = record {
    points = λ r j c p n here to there.
        let (d, found, e) = find-update (λ x. x.id) r _ _ w.channels (λ x. refl) here in
        unpointed i d c p e to
          (λ f. h.points r j d p n found f (find-select (λ x. x.id) j i w.packages there));
    floors = λ r c p m here there.
        let (d, found, e) = find-update (λ x. x.id) r.channel_id _ _ w.channels (λ x. refl) here in
        unpointed_fits i d c p e
          (h.floors r d p m found (find-select (λ x. x.id) r.package_id i w.packages there));
  }

  pub without_channel-Consistent : (i : String) → Consistent (without_channel i w)
  unfolding without_channel
  without_channel-Consistent i =
      let h' =
        packages_changed w h (λ p. contains p.channels_blacklist i)
          (λ p. record p { channels_blacklist = select (λ k. not (k == i)) p.channels_blacklist })
          (Milder-delete (λ k. not (k == i))) in
      record {
        points = λ r j c p n here to there.
            h'.points r j c p n (find-select (λ x. x.id) r i w.channels here) to there;
        floors = λ r c p m here there.
            h'.floors r c p (In-select (λ f. not (f.channel_id == i)) w.floors m).0
              (find-select (λ x. x.id) r.channel_id i w.channels here) there;
      }

  pub put_floor-Consistent :
      (k i : String) (reason : Option String)
      → ((c : ChannelRow) (p : Package)
          → channel_at k w ≡ some c
          → package_at i w ≡ some p
          → FitsFor c p)
      → Consistent (put_floor k i reason w)
  unfolding put_floor
  put_floor-Consistent k i reason fits = record {
    points = h.points;
    floors = λ r c p m here there. elim (In-upsert _ _ _ w.floors m) [
      | inl old ↦
          let (b, j, e) = old in
          let (a, d) = kept_keys k i reason b r e in
          h.floors b c p j (subst (λ z. channel_at z w ≡ some c) a here)
            (subst (λ z. package_at z w ≡ some p) d there)
      | inr new ↦
          fits c p (subst (λ (z : FloorRow). channel_at z.channel_id w ≡ some c) new here)
            (subst (λ (z : FloorRow). package_at z.package_id w ≡ some p) new there)
    ];
  }

  pub update_channel_row-Consistent :
      (c : Channel)
      → ((d : ChannelRow) (j : String) (p : Package)
          → channel_at c.id w ≡ some d
          → (j == "") ≡ false
          → c.package_id ≡ some j
          → package_at j w ≡ some p
          → FitsFor d p)
      → Consistent (update_channel_row c w).1
  unfolding update_channel_row
  update_channel_row-Consistent c fits = record {
    points = λ r j e p n here to there.
        let (d, found, same) = find-update (λ x. x.id) r _ _ w.channels (λ x. refl) here in
        repointed c d e p same
          (λ at f.
            fits d j p
              (subst (λ z. channel_at z w ≡ some d)
                (sym (find-key (λ x. x.id) r w.channels found) ∙ at) found)
              n f there)
          (λ f. h.points r j d p n found f there) to;
    floors = λ r e p m here there.
        let (d, found, same) =
          find-update (λ x. x.id) r.channel_id _ _ w.channels (λ x. refl) here in
        renamed_fits c d e p same (h.floors r d p m found there);
  }
