-- ===== src/Cheating/Second.antt =====
-- The second half of `KNOWN_HASHES` of skepticoin/cheating.py.
use Prim.Native.Nat.{ℕ}
use Prim.Native.String.{String}
use mathlib.Core.List.{List, [], ◌∷◌}

unfoldable pub second_known_hashes : List (ℕ × String)
second_known_hashes =
    (82500, "0000018e697390aa58aac000262c287be6f9800600f6a6b54539b9b33fbe649d")
    ∷ (83000, "000062f08b9e7d93e25ea125d0d8f80a6eb311f7397501b1f26fd1a1008cc4c7")
    ∷ (83500, "00014963a4e972f0fec332955c7c0fede49aaebe22e07b63b0bd48093f64e446")
    ∷ (84000, "000095f711faefec0407ad5a9c58b5ef4137235c6fa8bd27591ab941b1d61386")
    ∷ (84500, "0000074a61975118c5c131c951dac6adf14c5db03c45f2839b7b042f8a945dca")
    ∷ (85000, "00010b1aa4b57b2f9bd53b194fca2396ad8bf5e1d672a30c2cf7dec32655cbbd")
    ∷ (85500, "00011f70233a0c8d02f6d1093e1fb90c457d6e1d914f2e5cddb538137d57a967")
    ∷ (86000, "00014dfe38900c62399e4c051ce0e77511047c1a61c3a9ad2f93c1c2069622a1")
    ∷ (86500, "000007fc1c4463a4f79ed1e9f54284ac119dc0ef9888d35b3a6a6388fc78b99e")
    ∷ (87000, "0000eccfec71b1a00f8520f8255bff8bbbe70bcd612116ec818220266db3b5c5")
    ∷ (87500, "00001cfe7a645c5b0d6055a1a48ad3096fa532666da087d0fb776358140a52f2")
    ∷ (88000, "00001bd3cf49bfa8639d02bb7881b405d8437e4eb8c3c76f8b754d0002b93b62")
    ∷ (88500, "000020259d02fa32e59b36cf0591460bd8f4ef38f864ffd2511f88887dbbc935")
    ∷ (89000, "0000ed0ba483fdfcb3e672f26ea0c39e1da176a7dd5c2a14e029f72b33249d21")
    ∷ (89500, "00006e54d5493a59dd068a2bd37162d8e153b4762571e0e4d34f70f5c988ab37")
    ∷ (90000, "0000ab4935e53dc6e055e96b0484aea1561975d54d47c91230e1232c4e03020c")
    ∷ (90500, "000127a66989bd5b6dea50d167795cf0a7bca22d4666660a2c59d9c94340dbb9")
    ∷ (91000, "0000ab0b1b0ef8ec92b98633c3f41536b87a36d3a2a5b13feff8f1bdd047f9b7")
    ∷ (91500, "00020da6b1c558d087096a53b07fc8f7df1604ecb11c0300fce40e90e0940e91")
    ∷ (92000, "0000fd2120b9d8ebaf5fb5157b76a2a8d06cc80f4e8d61558b43c965f2e59f5a")
    ∷ (92500, "00002e2080d6d04d532ecca730f8b26359724487f25ee86d2565ddda79f404ce")
    ∷ (93000, "000085acad6aab252338bb4f7fd9d1b778d9359f8ac9c70b0862fc0c36fe9746")
    ∷ (93500, "0000fd225ba1656d9423713a624ab61de8f9fe52bf4bae5bf88d3e85c96c92be")
    ∷ (94000, "0000658ae5282eb011683c3df1524f25a9b3688a777866252b03d9aead2762e2")
    ∷ (94500, "000156c1e9677a1b403d72c70190b87369e8f4a34c28768773fd0c02d269835d")
    ∷ (95000, "0000e3c44c2caca5f3da3cc2ae9b0203a92fb9c32fb4ba149f53a7559328fcf2")
    ∷ (95500, "0000d9b30b849374559742cdaed7fc1bd9b843947435e6f6523152973fb0c689")
    ∷ (96000, "0002081fd478ca0e0dc2984933b5292a872c5ac942e69afb33504a551bc11b7b")
    ∷ (96500, "00013247d6ca0454406c6532a0810b2db01be582738ad6ff623afd492bcbc976")
    ∷ (97000, "000077f82a8cf4db1da4ba848918d8b497cd916f57b5ca8f8c17e4f4658a48e7")
    ∷ (97500, "00005108d5dd77b2650de603c3b5975ed0e9d9da7215ac4216f5e22c44988628")
    ∷ (98000, "00005b7321b513dcf77ab1bda6de0ac1eb1b23da300c1e6a173b132abd199c50")
    ∷ (98500, "00013ed6c233a14b759040e238adf5343b7c65ecf25f7d978ba5df17fdc167d5")
    ∷ (99000, "0000b26d6227706a549583fe52c7d96b03e83bf48e733bd74f85ab610dd1df09")
    ∷ (99500, "0000584bbf106196da00e7c007a544c33781d93aa21d4befdd6b023526663c08")
    ∷ (100000, "00010a2df0731fcc00b2f31247dcaadfcce993899073ebe89f7d917404da29e2")
    ∷ (100500, "0001103c0db9a0b8746d551885c59a81acbacf4a2b3e8f7bd94f886d7da9b215")
    ∷ (101000, "0001ff7352323fd1c8543d909dd0d84502f24df3ef09dd5e4521a495ecd154f4")
    ∷ (101500, "00002a39a07f27e0fbc3971875f54f486b4f565831da3df6f99a687fe998be4d")
    ∷ (102000, "00022063cc45781400a7db59b777320356719af739c700ecc11196919c28395f")
    ∷ (102500, "00020c97e85b815bf463788615e584c66b3dafd9d4af60a1d60ac8c455c6031e")
    ∷ (103000, "00014a9ac40d831329f66a9885ca175a0d3e512b72dc828e2923d62fbf2531fb")
    ∷ (103500, "0000a2b03a6b552f61fbb6ca6a53141e7ccfe680a2c1261daef791f460ef4d7a")
    ∷ (104000, "00013431d12a1e002c06d4b558d9671a3237bafda8bb1f6a94521acb553fc345")
    ∷ (104500, "0000c6b228c65af99c49c280471a462e899308e643d0d57afcb4260a6b47b6fc")
    ∷ (105000, "0000b35f344db10ec48e576cd0715b521758e702ca5c1415c2cf7a50d17018d2")
    ∷ (105500, "00009e736a7e7b6a8895aefda4b0f271ec9e261b3f9311406a46fac60971997e")
    ∷ (106000, "000202b6509f4c3f11fa694d33f4dbcce355099efca78774b92bbd25ba2d2c4c")
    ∷ (106500, "000033bdb02cb0ad48483dd4dade67c7aecd107f2dfe7974bd191f0dbbcaf47f")
    ∷ (107000, "0000a5edc6b3511d3b628f1098694349da5070e86abfc3e418cb6f7f316cb48a")
    ∷ (107500, "0000fefc867d551545f0286ec0a0089eb5a64553b7c7f2dda2504d487ff01298")
    ∷ (108000, "0000e5ac221ef31d9dc501169aed818fd57ad30fae630c7d9f100c1226e4f772")
    ∷ (108500, "0000ee1abe3b26fec534291c25d806bfaa2fcfa0d5488323f4195f81c341b9d9")
    ∷ (109000, "0001fcfa48e051e436870fb82d20b96ef101ec16250d12d8a3b358071fd2cdb0")
    ∷ (109500, "00006dd2d1e515f0913f429e036ea3c3f832dcfebf867c7ade09b5b3af8fd597")
    ∷ (110000, "0000f05b0cbe04153a3244b2d8afc9c2ad2d5393266275158e6e9bbe00a547b5")
    ∷ (110500, "00003dda482d172e2888414ebec8d0afdc5b7e56b68c6c0f3d4fdfa70dabf29d")
    ∷ (111000, "0000e71fc8494fba0123a5d5f1a542932be982806a575d9cdc1efb7fc6242da8")
    ∷ (111500, "00017a1642ebc727b66fe7b72e51569e1afec8f7493b310d99f4d5c7391b8de5")
    ∷ (112000, "0001aa91a19065f3ecb60d0acc904f00230ed3a396fc19496f3328e2510d4eb6")
    ∷ (112500, "0000aa96e5944911181cc57e119218f2a9455a6eee439086bfb417733a2971df")
    ∷ (113000, "00006169811bc8b8a2443a355cd79f37b46a4c2db0230d4b5e317cdc7756a83c")
    ∷ (113500, "00009c8de33b183b5e4cdfe03b4bc489bfc42b40f4ae92b958b25bdf6f44eac0")
    ∷ (114000, "00019913023146b9259df7e8619a12a0ea6166a170d897a6b1c03ace250d70de")
    ∷ (114500, "0001c781f6e6a97ac77b1987fecb866a7c14700e2b9427c5abec933ace4cb9fe")
    ∷ (115000, "00018cdeb17be019a7cf4fa4d173a8a77e14086c615e1776c1a7c368807afab5")
    ∷ (115500, "0000fdf0d2395eae210cc364b4e85eaca6b15dbbdb50534d302dbd0a9fca541c")
    ∷ (116000, "00012afe7af24a1e3a9d043f31af0e6c5880ec7761627b1611ffadf8c97bf9d0")
    ∷ (116500, "00012ae7b20cee3fdeeb0ca88e105f633934593beabb99fdf43714c47a7a5ce4")
    ∷ (117000, "00000e941f9bb6c07358d879b4791477bc627d3d318df2d54a7c6b25676ecd95")
    ∷ (117500, "0001ad1f49bfd29bf6446b2a40000cac93fc25b57031b8c0b876f7d7b60d8fe1")
    ∷ (118000, "00007f0f8553b35ff7d4c7dcbb7b9faf8834e92f6f00814163f1ca08b7cacda2")
    ∷ (118500, "0001d04216d2315182ff6b2d5551c43ab8646b647d5137ba692bdac2d3941eca")
    ∷ (119000, "0000cd42f90e8b77864b095169e7a105ef11c77947e759f8d83944e4d5399c5a")
    ∷ (119500, "00002e4fef8a51c7098192ffb7a08e7e0f3ebd7571680002b5814cb70ecb5462")
    ∷ (120000, "00009dbee0f8591979f2e89c90eb1a65a0920c97f1c8a4ad55ed0d93e7c876a4")
    ∷ (120500, "00011b23f71d6a331b76bfda56c9c2b53dd0f7046ca0fff6f23ea6552ddfa78d")
    ∷ (121000, "00001081ad75a971a995bdbb28fd0b9b8c572e5df1867b40066efafed9929b6a")
    ∷ (121500, "000001dbee1cc6359b5525d4cafa432f26fc43c33a5d915d17fbf53066a709d3")
    ∷ (122000, "0002069bf16b170ecb3f9d614c3bcb2467e915b029480178abfb57fb514203b3")
    ∷ (122500, "000160e63cd13e94aea626de03392d2041e2e548d99c1205c7e6da6e08e23cc9")
    ∷ (123000, "000252a36cab644bca818974dbbdcbfd6cae30c3156287fcd971bd56b7cebf8d")
    ∷ (123500, "0000c08ac632c55727731a1a5543d01cb25c06a2464abd6bd1d5b2294b704db1")
    ∷ (124000, "00014748aba172cdfd4e0c7cc2feb363d9f22742e82e67dfcd3a7dcc1780e857")
    ∷ (124500, "000196eb8ebddf0e062945b6ba1ebdca3d39499a4234530b29b2e78647b01612")
    ∷ (125000, "0000f1e568e963a23b7e1dead3e1ae9c3f8f12f48e36655475184508f9fc1e7a")
    ∷ (125500, "0001dfd2be581f03d018053aaaae7e0c362ce230425b4f2d059cf8681554be1d")
    ∷ (126000, "0001a4fa94fac4e93059b130716493ebef4eb903dd90aeb189cee23196393b73")
    ∷ (126500, "00002e7d991dd3fcd176e7d70ca539b450ae4eaf9899cd252f61fcc3f161e863")
    ∷ (127000, "00024ed9f4f78ff143c7ff14c4597b3c81b33ff2f0a1778e99901fdb9d6a2835")
    ∷ (127500, "0000bb7c15dae55a7eb74d1911a474dd53d93ee4b2c8f3e40d499f8ad18af0fa")
    ∷ (128000, "0000a65afa7d82fc3e3c48a01c9c597945d27131e134715327afcc5ab5d558f4")
    ∷ (128500, "0000a6b7bc5a43f27767064b4521ee32f8bfe146ec005294261ac71194d52f24")
    ∷ (129000, "0001762725a88f0c01da324178c95bdbf838de3a4503ecc1cff0fec5bcf9b57b")
    ∷ (129500, "0001b1a5043563265f8e4ca1f437dee2a1735412907b80346a0dc429fcf6795d")
    ∷ (130000, "00020a52de24e26fbbbac30c16e421234b67d58ea8640d032274eebfb338775b")
    ∷ (130500, "0000c8078d3f8b055209242e7fc56ef6c8e92dfb11d8dbec6fa8659c644ad2c4")
    ∷ (131000, "00001dd55386d342c5990e6e8da9a1a36d2baf7f06f2c1c94b006eeb56f72492")
    ∷ (131500, "0002338491387df9f9986b884badacc7a0f145134125c20aa0784841590e8e14")
    ∷ (132000, "000135e9ee8503cee8819836582b9aa64e1d3ae60659e2edb0304f34d44c1ad8")
    ∷ (132500, "0001dd86098adac5287d15f22c37b71c76fe0a2b78b5f946ccbc7006c967e279")
    ∷ (133000, "000046aa6840197149032a079d745cdb1500f7b31daa0f8d1977dc2b232464eb")
    ∷ (133500, "0002db5f5c238e45358bbe2a397691afc8430c14f03628a2769de65eb85f44f4")
    ∷ (134000, "0000939c793768fd8e0d5372795c2bc8a5d158e2fa076bc312798ede3e6492d7")
    ∷ (134500, "000232030a0e2abcf50b5a2bf8a52089ecc4c05b40c0ce2bb6451389ac87d6d8")
    ∷ (135000, "00014eb822e989b06f87e21a53551b4ffb0aa2bfa8cd297418904215614463dd")
    ∷ (135500, "00023e42fb6fd91191df6f1df393f90693790c4aa199fbe6fa70163b98b1c0b1")
    ∷ (136000, "00002574f1108a94452eeec1a5422d02ca7b311f867885de271618ffc128057f")
    ∷ (136500, "00009b6ea443ddfff3074bd903f1f850dcc1d92544d8567a805d5ed22ba0e17e")
    ∷ (137000, "00002111f3604392110980d26e756fb18348c0ee9c38f0ca550875a2a6c38ff9")
    ∷ (137500, "0001a4fa0149f53d5ebe80fc91d2c2adf1b7a8c3338d764e987a37a9f5afadec")
    ∷ (138000, "000103c54890e9b76372105769026b3cd545e11d981a74ef7a357f8574b4e18c")
    ∷ (138500, "00018a65bb5e920d21c6cdba028d241c30de2132f31a7b6b1b75a05e1b147173")
    ∷ (139000, "00020dc7915223a68a680b37032110cf92df9db72926f7f1a67555c9bd5d0bd8")
    ∷ (139500, "0001d3fbc462b6cff66aa2e045a7cf868d28f600c8bd0e38698969b12809c020")
    ∷ (140000, "0002272c92a6c3ee780943618de055808a4c2b924e554690db3eb69092463ea1")
    ∷ (140500, "0001faf69b557f52fcd7c89029f2fccfa1ee44f8a2787274156bdd2ccafe1826")
    ∷ (141000, "00009e228d5ea8c1d6ce61ad284263c23a3efaa63f98563f5c7aa17c463eb1c6")
    ∷ (141500, "0001983ce6edbaf415d6ed41b1ed04204e6809e9acde2b82e8ca1cdfecad644b")
    ∷ (142000, "00019a825b222d857a2f984307be2954ff39c17f8d4de3f6fb382636cf67d317")
    ∷ (142500, "0000574ccdf81a69e8633a93f389821e3daf1e03e2d93d4caf68a951c8b4af56")
    ∷ (143000, "00001b4c6becd4c91881ae3a8979be65489344010cab29aad6550b35ed0802ca")
    ∷ (143500, "000004e5c7e8df2fbfbb5d21a4ead5a46b53c0fc88467e7a3d5b850dd8e82ebf")
    ∷ (144000, "0000b18f4b506f6372ce0c3e69dd79448e151a275328a7e4cfef72cefee1542c")
    ∷ (144500, "00010c16af8921e449673d4f99e642fb7365122a8abc0f3505be1934a732d300")
    ∷ (145000, "0000280664ebad32d87b7d366e3f22651d19928719ff2176fbd51427113a72d4")
    ∷ (145500, "000132f20096724461bc852f07f98ad2dcd60bfb2a99f4a540d5cb8f3a880285")
    ∷ (146000, "000133980629fd714facd254d448ff56a5809843958ffcac52bccb5b2d69520f")
    ∷ (146500, "0001cd5dc0a9656614f60c5706f814fa4eb357664442f31dd876d40cab16edf6")
    ∷ (147000, "00014f58898971675cbdcb4b4ae382392962f521caae3b2d32f8463c7fe223db")
    ∷ (147500, "00021df95739804d52074c5345024d0ed15e897a40311e2b0737a953235438c4")
    ∷ (148000, "00007632ef1acc2132ea4221b2a3543eae2d2ec1efbc43a36d94538e1139035a")
    ∷ (148500, "00014155378ffa8974ec331eaa68b3da447fb76996f2e4e8d3bc723b4c195fb0")
    ∷ (149000, "000179300f602c8e708a83789471f2eff5e93c453d2254f7733ee942883fae72")
    ∷ (149500, "0000cd37369f693bb1f62675985dafe57a047180f3f14ea64bb2f480ab4bf30d")
    ∷ (150000, "0000912341ad2d1192dede72b02210fb4b291e9b3ead451e2c9519a6b9a1903d")
    ∷ (150500, "0000deddfc10ac2631ed2483f045511018a08c55068c288a882be60ab81e1753")
    ∷ (151000, "000080b768243d180460334c28f5d229634fd247259971e83a65be49dff06aaf")
    ∷ (151500, "00017fb5a514566d0b6f915d3c998b015955b1ca891dea65799b98ac4a76b335")
    ∷ (152000, "0001d7398aa10f676b10ff57cfd89c7bb34532238486269b83ce7a92a0ab815d")
    ∷ (152500, "00010236f6a0f38be8dcf5271f45839a878abd67fc220f2684ecded3af1539d9")
    ∷ (153000, "0000e15652412bbbb04b1e0132002632c803cd5f5a27a74883b460edb64424d8")
    ∷ (153500, "0000cf3559a03e12cef4692b67ea19c5f768795a7b075e8e2421d81b27e84fa4")
    ∷ (154000, "0000951a71828350bd6d10921c63fcf328dd8ed3409d04883698997f21066e5a")
    ∷ (154500, "000055be7e66ab729fe4a695a7c69ecf1fc40321c040cef8dc300b3db1c0c5fc")
    ∷ (155000, "00005e04ab6675083146fa748a1dbf9b5d0d5f90200aa45e791b0e9855434a0f")
    ∷ (155500, "0000c25b7b020b6054209f1326f6ad3910a72b51dfd157ba8db7f18223dcc80c")
    ∷ (156000, "00005f8580d98ec76dc94ab15454f06edf50e3cee4b1d1cd226c6c89010eb420")
    ∷ (156500, "00008d4b9b88535827d22510b52215e11a65c21d3b14e19f3c8328951dfeba26")
    ∷ (157000, "00007c510c820a85fa9808bdec2265dec73468b9d3de00687ece45e93908ccc3")
    ∷ (157500, "0000f556d6232ca3a00e9f58aef872859215f18c8bd03c920ab07708bbc9fd9d")
    ∷ (158000, "0001bec35959fd0449493b30a0360751e0f82aa3891750f6156d9fcafeb20dde")
    ∷ (158500, "000139d9542a2707329a3bc00407b03f1b6c131db0001d8132966f5ae5bad839")
    ∷ (159000, "000107cf602117535fde5e2422094804f5d450cf4bc134e0188e031aa1686d3b")
    ∷ (159500, "0001b541f6a7337eafa546dcb2f1f65e0af660d57982ba3d4f56b705729a738c")
    ∷ (160000, "000097f56ed7d7d08cd53ee97290af169421b2bd923faf1687dca45918cbd0af")
    ∷ (160500, "000044ade46ca59b6abb379e8fcaad19e8cec8dc0606e3908e18a8056e816165")
    ∷ (161000, "0000f4962a9555d215c1e2b55e03ff92cdc4bdd226b97715386a2e6c265201fd")
    ∷ (161500, "00021f01ab272a102fbb2792112508a04f85007a13c7cb5a8dd9e7cb1b765bf2")
    ∷ (162000, "000341f112f8bee9db35253a2cd5f46fa216f5655f824d15bb9ce2db2242a61e")
    ∷ (162500, "0003ae006c8362483e97bd58e3474958aa3224ece58ccb86081d9b93ac37402a")
    ∷ (163000, "0004ffae52a8f42088d3ccc24f0f04b11489666329c0d6321ebaf0c3b9cd5140")
    ∷ (131500, "0002338491387df9f9986b884badacc7a0f145134125c20aa0784841590e8e14")
    ∷ (132000, "000135e9ee8503cee8819836582b9aa64e1d3ae60659e2edb0304f34d44c1ad8")
    ∷ (132500, "0001dd86098adac5287d15f22c37b71c76fe0a2b78b5f946ccbc7006c967e279")
    ∷ (133000, "000046aa6840197149032a079d745cdb1500f7b31daa0f8d1977dc2b232464eb")
    ∷ (133500, "0002db5f5c238e45358bbe2a397691afc8430c14f03628a2769de65eb85f44f4")
    ∷ (134000, "0000939c793768fd8e0d5372795c2bc8a5d158e2fa076bc312798ede3e6492d7")
    ∷ (134500, "000232030a0e2abcf50b5a2bf8a52089ecc4c05b40c0ce2bb6451389ac87d6d8")
    ∷ (135000, "00014eb822e989b06f87e21a53551b4ffb0aa2bfa8cd297418904215614463dd")
    ∷ (135500, "00023e42fb6fd91191df6f1df393f90693790c4aa199fbe6fa70163b98b1c0b1")
    ∷ (136000, "00002574f1108a94452eeec1a5422d02ca7b311f867885de271618ffc128057f")
    ∷ (136500, "00009b6ea443ddfff3074bd903f1f850dcc1d92544d8567a805d5ed22ba0e17e")
    ∷ (137000, "00002111f3604392110980d26e756fb18348c0ee9c38f0ca550875a2a6c38ff9")
    ∷ (137500, "0001a4fa0149f53d5ebe80fc91d2c2adf1b7a8c3338d764e987a37a9f5afadec")
    ∷ (138000, "000103c54890e9b76372105769026b3cd545e11d981a74ef7a357f8574b4e18c")
    ∷ (138500, "00018a65bb5e920d21c6cdba028d241c30de2132f31a7b6b1b75a05e1b147173")
    ∷ (139000, "00020dc7915223a68a680b37032110cf92df9db72926f7f1a67555c9bd5d0bd8")
    ∷ (139500, "0001d3fbc462b6cff66aa2e045a7cf868d28f600c8bd0e38698969b12809c020")
    ∷ (140000, "0002272c92a6c3ee780943618de055808a4c2b924e554690db3eb69092463ea1")
    ∷ (140500, "0001faf69b557f52fcd7c89029f2fccfa1ee44f8a2787274156bdd2ccafe1826")
    ∷ (141000, "00009e228d5ea8c1d6ce61ad284263c23a3efaa63f98563f5c7aa17c463eb1c6")
    ∷ (141500, "0001983ce6edbaf415d6ed41b1ed04204e6809e9acde2b82e8ca1cdfecad644b")
    ∷ (142000, "00019a825b222d857a2f984307be2954ff39c17f8d4de3f6fb382636cf67d317")
    ∷ (142500, "0000574ccdf81a69e8633a93f389821e3daf1e03e2d93d4caf68a951c8b4af56")
    ∷ (143000, "00001b4c6becd4c91881ae3a8979be65489344010cab29aad6550b35ed0802ca")
    ∷ (143500, "000004e5c7e8df2fbfbb5d21a4ead5a46b53c0fc88467e7a3d5b850dd8e82ebf")
    ∷ (144000, "0000b18f4b506f6372ce0c3e69dd79448e151a275328a7e4cfef72cefee1542c")
    ∷ (144500, "00010c16af8921e449673d4f99e642fb7365122a8abc0f3505be1934a732d300")
    ∷ (145000, "0000280664ebad32d87b7d366e3f22651d19928719ff2176fbd51427113a72d4")
    ∷ (145500, "000132f20096724461bc852f07f98ad2dcd60bfb2a99f4a540d5cb8f3a880285")
    ∷ (146000, "000133980629fd714facd254d448ff56a5809843958ffcac52bccb5b2d69520f")
    ∷ (146500, "0001cd5dc0a9656614f60c5706f814fa4eb357664442f31dd876d40cab16edf6")
    ∷ (147000, "00014f58898971675cbdcb4b4ae382392962f521caae3b2d32f8463c7fe223db")
    ∷ (147500, "00021df95739804d52074c5345024d0ed15e897a40311e2b0737a953235438c4")
    ∷ (148000, "00007632ef1acc2132ea4221b2a3543eae2d2ec1efbc43a36d94538e1139035a")
    ∷ (148500, "00014155378ffa8974ec331eaa68b3da447fb76996f2e4e8d3bc723b4c195fb0")
    ∷ (149000, "000179300f602c8e708a83789471f2eff5e93c453d2254f7733ee942883fae72")
    ∷ (149500, "0000cd37369f693bb1f62675985dafe57a047180f3f14ea64bb2f480ab4bf30d")
    ∷ (150000, "0000912341ad2d1192dede72b02210fb4b291e9b3ead451e2c9519a6b9a1903d")
    ∷ (150500, "0000deddfc10ac2631ed2483f045511018a08c55068c288a882be60ab81e1753")
    ∷ (151000, "000080b768243d180460334c28f5d229634fd247259971e83a65be49dff06aaf")
    ∷ (151500, "00017fb5a514566d0b6f915d3c998b015955b1ca891dea65799b98ac4a76b335")
    ∷ (152000, "0001d7398aa10f676b10ff57cfd89c7bb34532238486269b83ce7a92a0ab815d")
    ∷ (152500, "00010236f6a0f38be8dcf5271f45839a878abd67fc220f2684ecded3af1539d9")
    ∷ (153000, "0000e15652412bbbb04b1e0132002632c803cd5f5a27a74883b460edb64424d8")
    ∷ (153500, "0000cf3559a03e12cef4692b67ea19c5f768795a7b075e8e2421d81b27e84fa4")
    ∷ (154000, "0000951a71828350bd6d10921c63fcf328dd8ed3409d04883698997f21066e5a")
    ∷ (154500, "000055be7e66ab729fe4a695a7c69ecf1fc40321c040cef8dc300b3db1c0c5fc")
    ∷ (155000, "00005e04ab6675083146fa748a1dbf9b5d0d5f90200aa45e791b0e9855434a0f")
    ∷ (155500, "0000c25b7b020b6054209f1326f6ad3910a72b51dfd157ba8db7f18223dcc80c")
    ∷ (156000, "00005f8580d98ec76dc94ab15454f06edf50e3cee4b1d1cd226c6c89010eb420")
    ∷ (156500, "00008d4b9b88535827d22510b52215e11a65c21d3b14e19f3c8328951dfeba26")
    ∷ (157000, "00007c510c820a85fa9808bdec2265dec73468b9d3de00687ece45e93908ccc3")
    ∷ (157500, "0000f556d6232ca3a00e9f58aef872859215f18c8bd03c920ab07708bbc9fd9d")
    ∷ (158000, "0001bec35959fd0449493b30a0360751e0f82aa3891750f6156d9fcafeb20dde")
    ∷ (158500, "000139d9542a2707329a3bc00407b03f1b6c131db0001d8132966f5ae5bad839")
    ∷ (159000, "000107cf602117535fde5e2422094804f5d450cf4bc134e0188e031aa1686d3b")
    ∷ (159500, "0001b541f6a7337eafa546dcb2f1f65e0af660d57982ba3d4f56b705729a738c")
    ∷ (160000, "000097f56ed7d7d08cd53ee97290af169421b2bd923faf1687dca45918cbd0af")
    ∷ (160500, "000044ade46ca59b6abb379e8fcaad19e8cec8dc0606e3908e18a8056e816165")
    ∷ (161000, "0000f4962a9555d215c1e2b55e03ff92cdc4bdd226b97715386a2e6c265201fd")
    ∷ (161500, "00021f01ab272a102fbb2792112508a04f85007a13c7cb5a8dd9e7cb1b765bf2")
    ∷ (162000, "000341f112f8bee9db35253a2cd5f46fa216f5655f824d15bb9ce2db2242a61e")
    ∷ (162500, "0003ae006c8362483e97bd58e3474958aa3224ece58ccb86081d9b93ac37402a")
    ∷ (163000, "0004ffae52a8f42088d3ccc24f0f04b11489666329c0d6321ebaf0c3b9cd5140")
    ∷ []
