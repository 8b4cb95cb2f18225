-- ===== src/Admin/Consistent/Edits.antt =====
-- The methods of the admin service that edit channels, floors and packages keep them consistent.
use mathlib.Core.Option.{some-injective}
use nebraska.Base.{ℕ, String, ◌≡◌, sym, ap, ◌∙◌, false, Option, none, some}
use nebraska.Base.{◌==◌, eqb}
use nebraska.Types.{text, Package, Channel, no_rows_affected}
use nebraska.Db.{World, Action, ChannelRow, exec_rows}
use nebraska.Db.Keeps.{quiet, Keeps-attempt, Keeps-exec-some}
use nebraska.Db.Runs.{Runs, Runs-pure, Runs-raise, Runs-if, Runs-bind, Runs-Keeps, Runs-exec_rows}
use nebraska.Db.Finds.{find-key}
use nebraska.Runtime.Updates.{contains}
use nebraska.Admin.Rows.{exec_some, some_row}
use nebraska.Admin.Channels.{
  update_channel, update_channel_row, channel_moved, new_channel_activity_entry, delete_channel,
  without_channel,
}
use nebraska.Admin.Floors.{remove_channel_package_floor}
use nebraska.Admin.Consistent.{FitsFor, channel_at, package_at, Consistent}
use nebraska.Admin.Consistent.Rows.{
  floors_taken, update_channel_row-Consistent, without_channel-Consistent,
}
use nebraska.Admin.Consistent.Reads.{ReadChannel, get_channel-Runs, Chosen, validated-Runs}

abbrev pub Kept : {A : Type 0} → Action A → Type 0
Kept m = Runs Consistent Consistent m (λ a. Consistent)

pub some_row-Runs :
    {E P Q : World → Type 0} (f : World → ℕ × World)
    → ((w : World) → P (quiet w) → Q (quiet (f w).1))
    → ((w : World) → P w → E w)
    → ((w : World) → Q w → E w)
    → Runs E P (exec_some f) (λ a. Q)
unfolding exec_some some_row
some_row-Runs {Q = Q} f k x y =
    Runs-bind {R = λ n. Q} (exec_rows f) _ (Runs-exec_rows f k x)
      (λ n. Runs-if (eqb n 0) (λ e. Runs-raise no_rows_affected y) (λ e. Runs-pure tt (λ w h. h)))

channel_moved-Runs : (b c : Channel) (p : Option Package) → Kept (channel_moved b c p)
unfolding channel_moved new_channel_activity_entry
channel_moved-Runs b c none = Runs-pure tt (λ w h. h)
channel_moved-Runs b c (some p) =
    Runs-if (text b.package_id == text c.package_id) (λ e. Runs-pure tt (λ w h. h))
      (λ e.
        Runs-Keeps Consistent Consistent
          (Keeps-attempt _
            (Keeps-exec-some _ (λ w h. record { points = h.points; floors = h.floors })))
          (λ w h. h))

-- A channel is pointed to a package that was checked.
validated_fits :
    (w : World) (c before : Channel)
    → ReadChannel c.id before w
    → Chosen c.package_id (record before { id = c.id }) w
    → (d : ChannelRow) (j : String) (p : Package) → channel_at c.id w ≡ some d
    → (j == "") ≡ false
    → c.package_id ≡ some j
    → package_at j w ≡ some p
    → FitsFor d p
validated_fits w c before r k d j p here n to there =
    let (arch, app, listed) = k j p n to there in
    let same : r.row ≡ d = some-injective _ _ (sym r.found ∙ here) in
    let id = find-key (λ x. x.id) c.id w.channels here in
    record {
      arch = ap (λ (x : ChannelRow). x.arch) (sym same) ∙ sym r.arch ∙ arch;
      app = ap (λ (x : ChannelRow). x.application_id) (sym same) ∙ sym r.app ∙ app;
      allowed = ap (λ z. contains p.channels_blacklist z) id ∙ listed;
    }

pub update_channel-Runs : (c : Channel) → Kept (update_channel c)
unfolding update_channel update_channel_row
update_channel-Runs c = Runs-bind _ _ (get_channel-Runs (λ w h. h) c.id) (λ before.
    Runs-bind _ _ (validated-Runs (λ w h. h.0) (record before { id = c.id }) c.package_id) (λ p.
      Runs-bind {R = λ u. Consistent} _ _
        (some_row-Runs (update_channel_row c)
          (λ w h.
            update_channel_row-Consistent (quiet w) h.0.0 c
              (validated_fits (quiet w) c before h.0.1 h.1))
          (λ w h. h.0.0) (λ w h. h))
        (λ u. channel_moved-Runs before c p)))

pub delete_channel-Runs : (i : String) → Kept (delete_channel i)
unfolding delete_channel without_channel
delete_channel-Runs i =
    some_row-Runs _ (λ w h. without_channel-Consistent (quiet w) h i) (λ w h. h) (λ w h. h)

pub remove_floor-Runs : (k i : String) → Kept (remove_channel_package_floor k i)
unfolding remove_channel_package_floor
remove_floor-Runs k i = some_row-Runs _ (λ w h. floors_taken (quiet w) h _) (λ w h. h) (λ w h. h)
