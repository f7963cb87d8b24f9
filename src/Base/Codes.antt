-- ===== src/Base/Codes.antt =====
-- nginx's return codes (NGX_OK, NGX_ERROR, NGX_AGAIN, NGX_DECLINED).
pub data Status : Type 0 where
  ok error again declined : Status
