-- ===== src/Playback/Picture.antt =====
-- The tests of a stream's picture size that the policy's files share.
use zombiebox_gateway_core.Base.{ℕ, ◌≤◌, ◌≡◌, Bool, true, false, ◌&&◌, ◌||◌, arith, ltb, leb, ◌==◌}
use zombiebox_gateway_core.Domain.{Stream}

-- `stream.Width <= 0 || stream.Height <= 0`
unfoldable pub no_picture : Stream → Bool
no_picture s = s.width == 0 || s.height == 0

-- `stream.Width > w || stream.Height > h`
unfoldable pub exceeds : Stream → ℕ → ℕ → Bool
exceeds s w h = ltb w s.width || ltb h s.height

-- `stream.Width <= w && stream.Height <= h`
pub within : Stream → ℕ → ℕ → Bool
within s w h = leb s.width w && leb s.height h

pub exceeds-false : (s : Stream) (w h : ℕ) → exceeds s w h ≡ false → (s.width ≤ w) × (s.height ≤ h)
unfolding exceeds
exceeds-false s w h e = ground arith

pub within-true : (s : Stream) (w h : ℕ) → within s w h ≡ true → (s.width ≤ w) × (s.height ≤ h)
unfolding within
within-true s w h e = ground arith
