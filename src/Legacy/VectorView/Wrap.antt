-- ===== src/Legacy/VectorView/Wrap.antt =====
-- Views whose begin + length wraps, which archive/legacy-dirtynet/core/vector_view.hh does not refuse.
use dirty_net.Legacy.VectorView.{VectorView}
