-- ===== src/Admin/Consistent.antt =====
-- Channels and the packages that they offer: what the admin service keeps up.
pub mod Rows
pub mod Reads
pub mod Changes
pub mod Edits
pub mod Floors
pub mod Packages
pub mod Additions
pub mod Service
use nebraska.Base.{String, ◌≡◌, false, Option, some, In, ◌==◌}
use nebraska.Types.{Package}
use nebraska.Db.{World, ChannelRow, FloorRow, find}
use nebraska.Runtime.Updates.{contains}

-- A package that a channel may offer: of its application and architecture, and not kept from it.
pub record FitsFor (c : ChannelRow) (p : Package) : Type 0 where
  pub arch : c.arch ≡ p.arch
  pub app : c.application_id ≡ p.application_id
  pub allowed : contains p.channels_blacklist c.id ≡ false

abbrev pub channel_at : String → World → Option ChannelRow
channel_at k w = find (λ c. c.id == k) w.channels

abbrev pub package_at : String → World → Option Package
package_at k w = find (λ p. p.id == k) w.packages

-- The package that a channel points to fits it, and so do its floors. An id is never empty.
pub record Consistent (w : World) : Type 0 where
  pub points :
      (k j : String) (c : ChannelRow) (p : Package)
      → (j == "") ≡ false
      → channel_at k w ≡ some c
      → c.package_id ≡ some j
      → package_at j w ≡ some p
      → FitsFor c p
  pub floors :
      (f : FloorRow) (c : ChannelRow) (p : Package)
      → In f w.floors
      → channel_at f.channel_id w ≡ some c
      → package_at f.package_id w ≡ some p
      → FitsFor c p
