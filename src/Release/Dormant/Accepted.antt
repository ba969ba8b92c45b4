-- ===== src/Release/Dormant/Accepted.antt =====
-- A verified record is true of the live host.
