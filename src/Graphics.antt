-- ===== src/Graphics.antt =====
-- emu/graphics: rectangles, rows of ranges, and the regions that clip all drawing.
pub mod Rect
pub mod Rows
pub mod Region
pub mod Bitmap
pub mod BitmapTests
pub mod Tests
