-- ===== src/Inbound/Render/Laws.antt =====
-- Response/Laws
