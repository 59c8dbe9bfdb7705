-- ===== src/Stats/Tests.antt =====
-- The windows of src/batt_window.c and the offsets of src/rx_stats_core.c on a few readings.
