-- ===== src/Snap/Table/Bitmap.antt =====
-- snap/table.rs: `build_bitmaps` records the ancestors that are near enough, all of them and no other.
