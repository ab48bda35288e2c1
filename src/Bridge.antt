-- ===== src/Bridge.antt =====
-- stream_server/src/zmq_bridge.c: the frames that the bridge hands to its clients, and the part of one
-- that a client may ask for. A frame's own sizes are what the conversion gave it, never negative; those
-- of a request are any integers. `bgr` is the bytes of the buffer, and `bgr_sz` its length.
pub mod Roi
pub mod Crop
pub mod Json
pub mod Frames
pub mod Serve
pub mod Runs
mod Tests
use myworkspace.Prelude.{
  ℕ, ◌+◌, ◌-◌, ◌*◌, List, Option, none, some, Bool, true, false, not, ◌&&◌, ◌||◌, ◌==◌, ltb,
  if◌then◌else◌, length, take, drop, Option-cases,
}
use myworkspace.Prelude.Int.{ℤ, pos, negsuc, ◌+ℤ◌, pos_part, neg_part, leb_ℤ}

pub record BgrFrame : Type 0 where
  pub stream_id : ℕ
  pub width : ℕ
  pub height : ℕ
  pub stride : ℕ
  pub source_width : ℕ
  pub source_height : ℕ
  pub roi_x : ℕ
  pub roi_y : ℕ
  pub pts : ℤ
  pub key_frame : Bool
  pub mono_ns : ℕ
  pub color_space : ℕ
  pub color_range : ℕ
  pub source_format : ℕ
  pub bgr : List ℕ

pub record RoiRequest : Type 0 where
  pub requested : Bool
  pub x : ℤ
  pub y : ℤ
  pub w : ℤ
  pub h : ℤ

pub record ResolvedRoi : Type 0 where
  pub x : ℕ
  pub y : ℕ
  pub w : ℕ
  pub h : ℕ
  pub source_width : ℕ
  pub source_height : ℕ
  pub applied : Bool

-- The edges of a request, cut to the frame's: the near one to 0, the far one to `size`.
unfoldable pub near_edge : ℤ → ℕ
near_edge (pos n) = n
near_edge (negsuc n) = 0

unfoldable pub far_edge : ℤ → ℤ → ℕ → ℤ
unfolding ◌+ℤ◌
far_edge at len size = let far = at +ℤ len in if not (leb_ℤ far (pos size)) then pos size else far

unfoldable pub resolve_bgr_roi : BgrFrame → RoiRequest → Option ResolvedRoi
unfolding near_edge far_edge
resolve_bgr_roi f r =
    if f.width == 0 || f.height == 0 || ltb f.stride (f.width * 3)
    then none
    else if not r.requested
    then some (record {
      x = 0;
      y = 0;
      w = f.width;
      h = f.height;
      source_width = f.width;
      source_height = f.height;
      applied = false;
    })
    else if leb_ℤ r.w (pos 0) || leb_ℤ r.h (pos 0)
    then none
    else let left = near_edge r.x in
      let top = near_edge r.y in
      let right = far_edge r.x r.w f.width in
      let bottom = far_edge r.y r.h f.height in
      if leb_ℤ right (pos left) || leb_ℤ bottom (pos top)
      then none
      else let wide = pos_part right - left in
        let high = pos_part bottom - top in
        some (record {
          x = left;
          y = top;
          w = wide;
          h = high;
          source_width = f.width;
          source_height = f.height;
          applied = not (left == 0 && top == 0 && wide == f.width && high == f.height);
        })

-- `memcpy` of `n` bytes from an offset; `none` is a read outside the buffer.
unfoldable pub read_at : ℕ → ℕ → List ℕ → Option (List ℕ)
read_at at n bytes = if ltb (length bytes) (at + n) then none else some (take n (drop at bytes))
